-- ===== src/App/Directory/Status.antt =====
-- What the directory shows beside its snapshot: `LinkSnapshot`, `Balancers`, `PeerCount` and
-- `WaitForHeartbeatRound` of internal/app/directory.go.
use algod_loadb_mesh.Base.{
  ℕ, ◌/◌, Bool, true, false, Option, none, some, List, [], ◌∷◌, ◌++◌, map, ltb, if◌then◌else◌, Time,
  is_zero, sub_time, Bytes, ltb_bytes, length, sort_by, keys, Float,
}
use algod_loadb_mesh.App.Directory.{Directory}
use algod_loadb_mesh.App.Directory.Gossip.{peer_links}
use algod_loadb_mesh.App.Link.{PathState, Link, is_alive, cur_addr}

-- `LinkStatus` and `PathStatus`.
pub record PathStatus (R : Type 0) : Type 0 where
  pub addr : Bytes
  pub rtt_ms : R
  pub alive : Bool
  pub is_deaf : Bool
  pub no_route : Bool
  pub losses : ℕ
  pub last_pong_age : R
  pub last_seen_age : R

pub record LinkStatus (R : Type 0) : Type 0 where
  pub peer_id : Bytes
  pub balancer : Bool
  pub path : Bytes
  pub paths : List (PathStatus R)

module _ {R : Type 0} (f : Float R) (now : Time) where
  abbrev pub age : Time → R
  age t = if is_zero t then f.sub (f.of_nat 0) (f.of_nat 1) else f.seconds (sub_time now t)

  abbrev pub path_status : PathState → PathStatus R
  path_status p = record {
    addr = p.addr;
    rtt_ms = f.div (f.of_nat (p.rtt / 1000)) (f.of_nat 1000);
    alive = is_alive p;
    is_deaf = p.deaf;
    no_route = p.no_route;
    losses = p.fails;
    last_pong_age = age p.ponged_at;
    last_seen_age = age p.last_seen;
  }

  abbrev pub link_status : Bool → Bytes × Link → LinkStatus R
  link_status balancer (id, l) = record {
    peer_id = l.id;
    balancer = balancer;
    path = cur_addr l;
    paths = map path_status l.paths;
  }

  -- `LinkSnapshot`.
  unfoldable pub link_snapshot : Directory → List (LinkStatus R)
  link_snapshot d =
      map (link_status false) (by_link (peer_links d.peers))
      ++ map (link_status true) (by_link d.balancers)
    where
      by_link : List (Bytes × Link) → List (Bytes × Link)
      by_link m = sort_by (λ a b. ltb_bytes a.0 b.0) m

-- `Balancers` and `PeerCount`.
unfoldable balancer_ids : Directory → List Bytes
balancer_ids d = sort_by ltb_bytes (keys d.balancers)

abbrev peer_count : Directory → ℕ
peer_count d = length d.peers

-- `WaitForHeartbeatRound`, on the values of `hbRound` that it reads one after the other; none is the
-- end of the context after them.
unfoldable pub wait_for_round : ℕ → List ℕ → Option ℕ
wait_for_round round [] = none
wait_for_round round (best ∷ later) =
    let rest = wait_for_round round later in if ltb round best then some best else rest
