-- ===== src/App/Directory/Records.antt =====
-- The registry's records: `SetRecords` and `unmatchedExcludeLocked` of internal/app/directory.go.
-- The warning that compares lists of ids as one joined text compares the lists here.
pub mod Peers
use algod_loadb_mesh.Base.{
  Bool, false, not, ◌&&◌, ◌||◌, Option, none, some, List, [], ◌∷◌, if◌then◌else◌, is_some, Time,
  Bytes, eqb, keep, any, ℤ, lookup, assign, keep_keys,
}
use algod_loadb_mesh.App.Directory.{Peer, Directory}
use algod_loadb_mesh.App.Directory.Gossip.{set_peer}
use algod_loadb_mesh.App.Link.{Link, new_link, sync_link}
use algod_loadb_mesh.App.Link.Ping.{choose_link}
use algod_loadb_mesh.App.Monitor.{LocalState}
use algod_loadb_mesh.App.Options.{PeerOverride, DirectoryOptions, judge_for}
use algod_loadb_mesh.Domain.Endpoint.{Net, endpoint_hosts}
use algod_loadb_mesh.Domain.NodeRecord.{Node, is_balancer, equal_strings}

-- The loop's state: the directory, the ids seen, the new balancers and whether a path changed.
pub record Update : Type 0 where
  pub dir : Directory
  pub seen : List Bytes
  pub links : List (Bytes × Link)
  pub switched : Bool

abbrev pub is_skipped : DirectoryOptions → Bytes → Node → Bool
is_skipped o network r =
    eqb r.id o.local_id || (not (eqb network []) && not (eqb r.network network))

abbrev pub given_tier : Node → Option ℤ → Node
given_tier r none = r
given_tier r (some t) = record r { tier = t }

abbrev pub overridden : Node → Option PeerOverride → Node
overridden r none = r
overridden r (some ov) = given_tier r ov.tier

-- The zero record that a new peer is made with is replaced at once.
abbrev pub new_peer : DirectoryOptions → Node → Peer
new_peer o r = record {
  rec = r;
  hb = none;
  seen_at = 0;
  silent = false;
  probe_at = 0;
  probe_ok = false;
  probe_round = 0;
  judge = judge_for o;
  ln = new_link r.id;
  hosts = [];
}

-- A known peer, or a new one, and the link that `syncLink` starts from.
abbrev pub or_new_peer : DirectoryOptions → Node → Option Peer → Peer × Option Link
or_new_peer o r none = (new_peer o r, none)
or_new_peer o r (some p) = (p, some p.ln)

-- A link that the directory has changes where it stands, too.
abbrev pub put_known : Bytes → Link → Option Link → List (Bytes × Link) → List (Bytes × Link)
put_known id l none m = m
put_known id l (some old) m = assign id l m

module _ (n : Net) (o : DirectoryOptions) (now : Time) where
  abbrev pub set_balancer : Update → Node → Update
  set_balancer u r =
      let known = lookup r.id u.dir.balancers in
      let (l, switched) = choose_link o now (sync_link n known r) in
      record u {
        dir = record u.dir { balancers = put_known r.id l known u.dir.balancers };
        links = assign r.id l u.links;
        switched = switched || u.switched;
      }

  abbrev pub set_node : Update → Node → Update
  set_node u given =
      let r = overridden given (lookup given.id o.peer_overrides) in
      let (p, known) = or_new_peer o r (lookup given.id u.dir.peers) in
      let (l, switched) = choose_link o now (sync_link n known r) in
      record u {
        dir =
            set_peer given.id (record p { rec = r; hosts = endpoint_hosts n r.endpoints; ln = l })
              u.dir;
        seen = given.id ∷ u.seen;
        switched = switched || u.switched;
      }

  abbrev pub set_record : Update → Node → Update
  set_record u r =
      if is_skipped o u.dir.network r
      then u
      else if is_balancer r
      then set_balancer u r
      else set_node u r

  unfoldable pub set_each : Update → List Node → Update
  set_each u [] = u
  set_each u (r ∷ rs) = set_each (set_record u r) rs

  abbrev pub start_update : Directory → LocalState → Update
  start_update d node = record {
    dir = record d { network = node.caps.genesis_id };
    seen = [];
    links = [];
    switched = false;
  }

  abbrev pub end_update : Update → Directory
  end_update u = record u.dir {
    peers = keep_keys (λ id. any (eqb id) u.seen) u.dir.peers;
    balancers = u.links;
  }

  -- `SetRecords`, up to the warning: the directory, and whether a path changed.
  unfoldable pub set_records : Directory → LocalState → List Node → Directory × Bool
  set_records d node recs =
      let u = set_each (start_update d node) recs in (end_update u, u.switched)

abbrev unmatched_ids : DirectoryOptions → Directory → List Bytes
unmatched_ids o d =
    keep (λ id. not (is_some (lookup id d.peers)) && not (is_some (lookup id d.externals)))
      o.exclude

-- `unmatchedExcludeLocked`: the ids to warn about, none when they are those of the last call.
unfoldable unmatched_exclude : DirectoryOptions → Directory → Directory × List Bytes
unmatched_exclude o d =
    let ids = unmatched_ids o d in
    if equal_strings ids d.unmatched then (d, []) else (record d { unmatched = ids }, ids)
