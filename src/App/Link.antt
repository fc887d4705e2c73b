-- ===== src/App/Link.antt =====
-- One peer's addresses and the one that carries the heartbeats: `pathState` and `link` of
-- internal/app/directory.go. A map of the paths by address keeps the last path of an address, and
-- a link has each address once. Round trip times are durations of at least 0, as in `PathStat`;
-- `cur` is none for -1. A method on a pointer returns the new value. Logs and metrics are left.
pub mod Current
pub mod Ping
use algod_loadb_mesh.Base.{
  ℕ, suc, ◌-◌, ◌/◌, Bool, true, false, not, ◌&&◌, Option, none, some, List, [], ◌∷◌, ◌++◌, map, ltb,
  ◌==◌, if◌then◌else◌, is_some, Time, Duration, is_zero, sub_time, Bytes, eqb, length, get_elem?,
  any, ℤ, pos, negsuc,
}
use algod_loadb_mesh.App.Stats.{fails}
use algod_loadb_mesh.App.TxnPins.{found}
use algod_loadb_mesh.Domain.Endpoint.{Net, normalize_addr}
use algod_loadb_mesh.Domain.NodeRecord.{gossip_addrs, Node}
use algod_loadb_mesh.Domain.Path.{PathStat, path_failures, PathPolicy, deaf, choose}

pub record PathState : Type 0 where
  pub addr : Bytes
  pub rtt : ℕ
  pub pinged_at : Time
  pub ponged_at : Time
  pub last_seen : Time
  pub nonce : ℕ
  pub fails : ℕ
  pub no_route : Bool
  pub deaf : Bool

abbrev pub new_path : Bytes → PathState
new_path a = record {
  addr = a;
  rtt = 0;
  pinged_at = 0;
  ponged_at = 0;
  last_seen = 0;
  nonce = 0;
  fails = 0;
  no_route = false;
  deaf = false;
}

pub record Link : Type 0 where
  pub id : Bytes
  pub pub_key : Bytes
  pub paths : List PathState
  pub cur : Option ℕ
  pub switched_at : Time
  pub heard_at : Time

abbrev pub new_link : Bytes → Link
new_link id = record {
  id = id;
  pub_key = [];
  paths = [];
  cur = none;
  switched_at = 0;
  heard_at = 0;
}

-- `(*pathState).alive`.
unfoldable pub is_alive : PathState → Bool
is_alive p = not p.no_route && not p.deaf && ltb p.fails path_failures

-- `(*link).stats`.
abbrev pub stat_of : PathState → PathStat
stat_of p = record { addr = p.addr; rtt = p.rtt; alive = is_alive p; deaf = p.deaf }

unfoldable pub stats : Link → List PathStat
stats l = map stat_of l.paths

abbrev pub path_at : List PathState → Option ℕ → Option PathState
path_at paths none = none
path_at paths (some i) = get_elem? paths i

-- `(*link).curPath` and `curAddr`.
unfoldable pub cur_path : Link → Option PathState
cur_path l = path_at l.paths l.cur

abbrev pub addr_of : Option PathState → Bytes
addr_of none = []
addr_of (some p) = p.addr

unfoldable pub cur_addr : Link → Bytes
unfolding cur_path
cur_addr l = addr_of (cur_path l)

-- `old[a]`: of the paths with an address, the last.
unfoldable pub find_path : Bytes → List PathState → Option PathState
find_path a [] = none
find_path a (p ∷ ps) =
    let later = find_path a ps in
    if is_some later then later else if eqb p.addr a then some p else none

abbrev pub kept_path : Bytes → Option PathState → PathState
kept_path a none = new_path a
kept_path a (some p) = p

-- The loop of `syncLink`: the addresses left, those seen, the new paths in order and the index of
-- the current address among them. `cur_addr` is empty without a current path.
unfoldable pub sync_paths :
    List PathState
    → Bytes
    → List Bytes
    → List Bytes
    → List PathState
    → Option ℕ
    → List PathState × Option ℕ
sync_paths old cur [] seen paths idx = (paths, idx)
sync_paths old cur (a ∷ rest) seen paths idx =
    let again = sync_paths old cur rest seen paths idx in
    let next =
      sync_paths old cur rest (a ∷ seen) (paths ++ (kept_path a (find_path a old) ∷ []))
        (if eqb a cur then some (length paths) else idx) in
    if any (eqb a) seen then again else next

abbrev pub or_new : Bytes → Option Link → Link
or_new id none = new_link id
or_new id (some l) = l

-- `syncLink`.
unfoldable pub sync_link : Net → Option Link → Node → Link
sync_link n found r =
    let l = or_new r.id found in
    let (paths, idx) =
      sync_paths l.paths (cur_addr l) (map (normalize_addr n) (gossip_addrs r.agent)) [] [] none in
    record l { pub_key = r.agent.pub_key; paths = paths; cur = idx }

abbrev pub same_index : Option ℕ → Option ℕ → Bool
same_index none none = true
same_index (some i) (some j) = i == j
same_index none (some j) = false
same_index (some i) none = false

-- `chooseLocked`: the link, and whether the chosen path changed. A balancer chooses none.
unfoldable pub choose_path : Bool → PathPolicy → Time → Link → Link × Bool
choose_path no_local policy now l =
    let (idx, reason) = choose policy now (stats l) l.cur l.switched_at in
    if no_local
    then (l, false)
    else if same_index idx l.cur
    then (l, false)
    else (record l { cur = idx; switched_at = now }, true)

-- `Milliseconds` of a duration, which rounds towards 0.
abbrev pub milliseconds : Duration → ℤ
milliseconds (pos n) = pos (n / 1000000)
milliseconds (negsuc n) = if ltb (suc n) 1000000 then pos 0 else negsuc (suc n / 1000000 - 1)

-- `heardMS`.
unfoldable pub heard_ms : Link → Time → ℤ
heard_ms l now = if is_zero l.heard_at then negsuc 0 else milliseconds (sub_time now l.heard_at)

-- What an authenticated datagram does to the path that it came by.
abbrev pub touch_path : Bytes → Time → PathState → PathState
touch_path origin now p = if eqb p.addr origin then record p { last_seen = now; fails = 0 } else p

abbrev pub touch : Bytes → Time → Link → Link
touch origin now l = record l { paths = map (touch_path origin now) l.paths }
