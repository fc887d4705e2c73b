-- ===== src/App/Directory/View.antt =====
-- The candidates that the router selects from: `Snapshot` of internal/app/directory.go. The statistics
-- of an upstream, `StatsBook.Snapshot` at that moment, are an argument.
pub mod Candidates
use algod_loadb_mesh.Base.{
  ℕ, true, false, Option, none, some, List, [], ◌∷◌, ◌++◌, if◌then◌else◌, Time, sub_time, Bytes,
  codes, ltb_bytes, pos, leb_ℤ, sort_by, Float,
}
use algod_loadb_mesh.App.Directory.{Peer, External, Directory, is_probed, best_round_at}
use algod_loadb_mesh.App.Directory.Checks.{is_fresh}
use algod_loadb_mesh.App.Link.{cur_addr}
use algod_loadb_mesh.App.Monitor.{LocalState}
use algod_loadb_mesh.App.Options.{DirectoryOptions, is_excluded}
use algod_loadb_mesh.App.Router.{Snapshot}
use algod_loadb_mesh.Domain.Capabilities.{
  archival_none, Archival, oldest_round_for, Capabilities, apply,
}
use algod_loadb_mesh.Domain.Codec.{Heartbeat}
use algod_loadb_mesh.Domain.Eligible.{sync_health}
use algod_loadb_mesh.Domain.Endpoint.{Net, endpoint_for}
use algod_loadb_mesh.Domain.Judge.{SyncJudge, judge}
use algod_loadb_mesh.Domain.Upstream.{
  Health, offline, online, local, peer, external, Stats, Upstream,
}

abbrev pub source_local : Bytes
source_local = codes "local"

abbrev pub source_heartbeat : Bytes
source_heartbeat = codes "heartbeat"

abbrev pub source_probe : Bytes
source_probe = codes "probe"

abbrev pub source_check : Bytes
source_check = codes "check"

abbrev pub source_none : Bytes
source_none = codes "none"

-- `domain.Archival{Kind: domain.ArchivalNone}`.
abbrev pub archival_of_none : Archival
archival_of_none = record { kind = archival_none; n = 0 }

-- The zero value of the capabilities, but for what is known of the oldest round.
abbrev pub bare_caps : Archival → ℕ → Capabilities
bare_caps a last_round = record {
  oldest_round = oldest_round_for archival_of_none last_round;
  archival = a;
  developer_api = false;
  follow_mode = false;
  experimental_api = false;
  time_travel = false;
  simulate = none;
  algod_version = [];
  genesis_id = [];
  storage_engine = [];
  max_acct_lookback = 0;
}

abbrev pub no_archival : Archival
no_archival = record { kind = []; n = 0 }

module _ {R : Type 0} (f : Float R) (n : Net) (o : DirectoryOptions) (seen_stats : Bytes → Stats R)
    (node : LocalState) (now : Time) where
  abbrev pub local_upstream : Directory → Health → Upstream R
  local_upstream d h = record {
    id = o.local_id;
    kind = local;
    tier = o.local_tier;
    base_url = node.endpoint;
    token = node.config.token;
    health = h;
    last_round = node.last_round;
    caps = node.caps;
    draining = d.draining;
    excluded = false;
    stats = seen_stats o.local_id;
    source = source_local;
    score = f.of_nat 0;
  }

  -- A peer of which nothing is known.
  abbrev pub peer_base : Bytes → Peer → Upstream R
  peer_base id p = record {
    id = id;
    kind = peer;
    tier = p.rec.tier;
    base_url = endpoint_for n p.rec.endpoints p.hosts (cur_addr p.ln);
    token = p.rec.token;
    health = offline;
    last_round = 0;
    caps = bare_caps no_archival 0;
    draining = false;
    excluded = is_excluded o id;
    stats = seen_stats id;
    source = source_none;
    score = f.of_nat 0;
  }

  abbrev pub judged : Peer → SyncJudge × Health → Upstream R → Peer × Upstream R
  judged p (j, h) u = (record p { judge = j }, record u { health = h })

  -- The peer's heartbeats are recent.
  abbrev pub heard_upstream : Bytes → Peer → ℕ → Heartbeat → Peer × Upstream R
  heard_upstream id p best hb =
      judged p (judge p.judge now hb.online hb.last_round best) (record (peer_base id p) {
        source = source_heartbeat;
        last_round = hb.last_round;
        caps = hb.caps;
        draining = hb.draining;
      })

  -- Capabilities of a silent peer: the last heartbeat's, or those that its record declares.
  abbrev pub probed_caps : Peer → Option Heartbeat → Capabilities
  probed_caps p none = apply p.rec.declared (bare_caps no_archival p.probe_round) p.probe_round
  probed_caps p (some hb) = hb.caps

  abbrev pub probed_upstream : Bytes → Peer → ℕ → Peer × Upstream R
  probed_upstream id p best =
      judged p (judge p.judge now true p.probe_round best) (record (peer_base id p) {
        source = source_probe;
        last_round = p.probe_round;
        caps = probed_caps p p.hb;
      })

  -- Neither: the judge is told, and the upstream stays offline.
  abbrev pub unknown_upstream : Bytes → Peer → ℕ → Peer × Upstream R
  unknown_upstream id p best =
      (record p { judge = (judge p.judge now false 0 best).0 }, peer_base id p)

  abbrev pub quiet_upstream : Bytes → Peer → ℕ → Peer × Upstream R
  quiet_upstream id p best =
      if is_probed o now p then probed_upstream id p best else unknown_upstream id p best

  abbrev pub recent_upstream : Bytes → Peer → ℕ → Option Heartbeat → Peer × Upstream R
  recent_upstream id p best none = quiet_upstream id p best
  recent_upstream id p best (some hb) =
      if leb_ℤ (sub_time now p.seen_at) (pos o.suspect_after)
      then heard_upstream id p best hb
      else quiet_upstream id p best

  -- The body of the loop of `Snapshot` over the peers.
  unfoldable pub peer_upstream : Bytes → Peer → ℕ → Peer × Upstream R
  peer_upstream id p best = recent_upstream id p best p.hb

  abbrev pub fresh_upstream : ℕ → External → Upstream R → Upstream R
  fresh_upstream best e u =
      if is_fresh now e
      then record u {
        source = source_check;
        health = sync_health online e.round best o.sync_tolerance;
      }
      else u

  -- The body of the loop of `Snapshot` over the externals.
  unfoldable pub external_upstream : Bytes → External → ℕ → Upstream R
  external_upstream id e best = fresh_upstream best e (record {
    id = id;
    kind = external;
    tier = e.cfg.tier;
    base_url = e.cfg.url;
    token = e.cfg.token;
    health = offline;
    last_round = e.round;
    caps = apply e.cfg.capabilities (bare_caps archival_of_none e.round) e.round;
    draining = false;
    excluded = is_excluded o id;
    stats = seen_stats id;
    source = source_none;
    score = f.of_nat 0;
  })

  -- The loops, over the entries in the order of their sorted ids.
  unfoldable pub peer_upstreams : List (Bytes × Peer) → ℕ → List (Bytes × Peer) × List (Upstream R)
  peer_upstreams [] best = ([], [])
  peer_upstreams ((id, p) ∷ ps) best =
      let (q, u) = peer_upstream id p best in
      let (qs, us) = peer_upstreams ps best in ((id, q) ∷ qs, u ∷ us)

  unfoldable pub external_upstreams : List (Bytes × External) → ℕ → List (Upstream R)
  external_upstreams [] best = []
  external_upstreams ((id, e) ∷ es) best = external_upstream id e best ∷ external_upstreams es best

  abbrev pub by_id : {A : Type 0} → List (Bytes × A) → List (Bytes × A)
  by_id m = sort_by (λ a b. ltb_bytes a.0 b.0) m

  abbrev pub with_local : Directory → ℕ → List (Upstream R) → Directory × List (Upstream R)
  with_local d best us =
      let (j, h) = judge d.local_judge now node.online node.last_round best in
      if o.no_local then (d, us) else (record d { local_judge = j }, local_upstream d h ∷ us)

  -- `Snapshot`, which feeds the judges.
  unfoldable pub directory_snapshot : Directory → Directory × Snapshot R
  directory_snapshot d =
      let best = best_round_at o d node now in
      let (ps, peer_us) = peer_upstreams (by_id d.peers) best in
      let (d', us) = with_local d best (peer_us ++ external_upstreams (by_id d.externals) best) in
      (record d' { peers = ps }, record { cands = us; best = best })
