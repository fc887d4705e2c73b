-- ===== src/App/Directory.antt =====
-- The state of the directory, and its view of the rounds: internal/app/directory.go. The maps are
-- association lists without repeated keys, walked in the order of the list, where Go leaves the
-- order open. `hasHB` with `hb` is an optional heartbeat. The channels that wake waiters are left.
pub mod Gossip
pub mod Records
pub mod Checks
pub mod View
pub mod Status
use algod_loadb_mesh.Base.{
  ℕ, ◌*◌, Bool, true, false, ◌&&◌, Option, none, some, List, [], ◌∷◌, ltb, if◌then◌else◌, is_some,
  Time, sub_time, second, Bytes, pos, leb_ℤ, assign,
}
use algod_loadb_mesh.App.Account.{in_flight}
use algod_loadb_mesh.App.Link.{Link}
use algod_loadb_mesh.App.Monitor.{LocalState}
use algod_loadb_mesh.App.Options.{
  ExternalUpstream, DirectoryOptions, or_default, judge_for, is_excluded,
}
use algod_loadb_mesh.Domain.Codec.{ok, Heartbeat}
use algod_loadb_mesh.Domain.Judge.{SyncJudge, judge}
use algod_loadb_mesh.Domain.NodeRecord.{Node}

-- `peerState`.
pub record Peer : Type 0 where
  pub rec : Node
  pub hb : Option Heartbeat
  pub seen_at : Time
  pub silent : Bool
  pub probe_at : Time
  pub probe_ok : Bool
  pub probe_round : ℕ
  pub judge : SyncJudge
  pub ln : Link
  pub hosts : List Bytes

-- `extState`; `in_flight` is whether a check runs.
pub record External : Type 0 where
  pub cfg : ExternalUpstream
  pub checked_at : Time
  pub in_flight : Bool
  pub ok : Bool
  pub round : ℕ

pub record Directory : Type 0 where
  pub network : Bytes
  pub peers : List (Bytes × Peer)
  pub balancers : List (Bytes × Link)
  pub nonce : ℕ
  pub hb_round : ℕ
  pub externals : List (Bytes × External)
  pub local_judge : SyncJudge
  pub local_seq : ℕ
  pub hb_seq : ℕ
  pub draining : Bool
  pub unmatched : List Bytes

abbrev pub new_external : ExternalUpstream → External
new_external e = record {
  cfg = record e { health_check = or_default (60 * second) e.health_check };
  checked_at = 0;
  in_flight = false;
  ok = false;
  round = 0;
}

abbrev pub add_externals : List ExternalUpstream → List (Bytes × External) → List (Bytes × External)
add_externals [] m = m
add_externals (e ∷ es) m = add_externals es (assign e.name (new_external e) m)

-- `NewDirectory`, after the defaults.
unfoldable pub new_directory : DirectoryOptions → Directory
new_directory o = record {
  network = [];
  peers = [];
  balancers = [];
  nonce = 0;
  hb_round = 0;
  externals = add_externals o.externals [];
  local_judge = judge_for o;
  local_seq = 0;
  hb_seq = 0;
  draining = false;
  unmatched = [];
}

-- `noteRoundLocked`; a rise wakes the waiters.
abbrev pub note_round : ℕ → Directory → Directory
note_round r d = if ltb d.hb_round r then record d { hb_round = r } else d

-- Whether a heartbeat of the peer is recent.
abbrev pub is_heard : DirectoryOptions → Time → Peer → Bool
is_heard o now p = is_some p.hb && leb_ℤ (sub_time now p.seen_at) (pos o.suspect_after)

-- Whether a probe was answered, with the latest one begun recently.
abbrev pub is_probed : DirectoryOptions → Time → Peer → Bool
is_probed o now p = p.probe_ok && leb_ℤ (sub_time now p.probe_at) (pos (2 * o.probe_interval))

abbrev pub heard_round : Option Heartbeat → ℕ × Bool
heard_round none = (0, false)
heard_round (some hb) = (hb.last_round, hb.online)

-- `peerRoundLocked`.
unfoldable pub peer_round : DirectoryOptions → Time → Peer → ℕ × Bool
peer_round o now p =
    if is_heard o now p
    then heard_round p.hb
    else if is_probed o now p
    then (p.probe_round, true)
    else (0, false)

abbrev pub raise : ℕ × Bool → ℕ → ℕ
raise (r, known) best = if known && ltb best r then r else best

unfoldable pub best_peer : DirectoryOptions → Time → List (Bytes × Peer) → ℕ → ℕ
unfolding peer_round
best_peer o now [] best = best
best_peer o now ((id, p) ∷ ps) best =
    best_peer o now ps (if is_excluded o id then best else raise (peer_round o now p) best)

unfoldable pub best_external : DirectoryOptions → List (Bytes × External) → ℕ → ℕ
best_external o [] best = best
best_external o ((id, e) ∷ es) best =
    best_external o es (if is_excluded o id then best else raise (e.round, e.ok) best)

-- `bestRoundLocked`.
unfoldable pub best_round_at : DirectoryOptions → Directory → LocalState → Time → ℕ
best_round_at o d node now =
    best_external o d.externals
      (best_peer o now d.peers (if node.online then node.last_round else 0))
