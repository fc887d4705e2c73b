-- ===== src/Tests/Mesh.antt =====
-- The directory: a node that knows one peer.
use algod_loadb_mesh.Base.{
  ℕ, ◌≡◌, refl, ◌⊎◌, true, false, Option, none, some, [], ◌∷◌, ◌++◌, arith, is_some, Bytes, codes,
  eqb, ltb_bytes, length, take, drop, replicate, any, Among, pos, insert_by, sort_by, lookup,
}
use algod_loadb_mesh.App.Directory.{
  Peer, Directory, new_directory, peer_round, best_peer, best_external, best_round_at,
}
use algod_loadb_mesh.App.Directory.Gossip.{handle}
use algod_loadb_mesh.App.Directory.Gossip.Replay.{Arrival, receive, IsKnownFrom, receive_never_back}
use algod_loadb_mesh.App.Directory.Gossip.Trust.{IsSigned, IsIgnored, handle_trusted}
use algod_loadb_mesh.App.Directory.Records.{set_records}
use algod_loadb_mesh.App.Directory.Records.Peers.{
  is_peer_record, is_balancer_record, set_records_peers,
}
use algod_loadb_mesh.App.Directory.View.{
  peer_upstream, peer_upstreams, external_upstreams, directory_snapshot,
}
use algod_loadb_mesh.App.Directory.View.Candidates.{IsLive, snapshot_pick-IsLive}
use algod_loadb_mesh.App.Link.{PathState, new_path, Link, cur_addr}
use algod_loadb_mesh.App.Monitor.{NodeConfig, LocalState}
use algod_loadb_mesh.App.Options.{DirectoryOptions, judge_for, is_excluded}
use algod_loadb_mesh.Domain.Eligible.{
  in_sync, state_oldest, state_window_covers, window_covers, round_eligible, eligible,
}
use algod_loadb_mesh.Domain.Endpoint.{Net, endpoint_for}
use algod_loadb_mesh.Domain.Judge.{observe, judge_reachable, judge}
use algod_loadb_mesh.Domain.Request.{heavy, fits, stat_key}
use algod_loadb_mesh.Domain.Select.{
  fallback, Selection, effective_tier, state_window_edge, weigh, score, scored, before, same_tier,
  indices, pool, draw_two, choose_index, pick, select,
}
use algod_loadb_mesh.Domain.Upstream.{reachable, Stats, Upstream}
use algod_loadb_mesh.Tests.Fixtures.{
  nat_float, nat_float-IsOrdered, stock_caps, idle_stats, peer_node, no_weights, read,
}
use algod_loadb_mesh.Tests.Sealing.{toy_record, toy_heartbeat, toy_signing, toy_wire}

-- The length of a port, the port and the host.
abbrev split_sized : Bytes → Option (Bytes × Bytes)
split_sized [] = none
split_sized (n ∷ rest) = some (drop n rest, take n rest)

abbrev pub toy_net : Net
toy_net = record {
  split_host_port = split_sized;
  join_host_port = λ h p. length p ∷ (p ++ h);
  parse_ip = λ s. some s;
  to4 = λ ip. none;
  ip_string = λ ip. ip;
  ip_equal = eqb;
  hostname = λ s. some s;
}

abbrev options : DirectoryOptions
options = record {
  local_id = codes "me";
  local_tier = pos 0;
  no_local = true;
  suspect_after = 15;
  down_after = 30;
  probe_interval = 10;
  keep_alive = 5;
  path_probe_interval = 30;
  path_timeout = 2;
  sync_tolerance = 1;
  lag_grace = 1;
  return_hysteresis = 3;
  peer_overrides = [];
  externals = [];
  exclude = [];
}

abbrev path : PathState
path = record (new_path (codes "a")) { nonce = 1; pinged_at = 40 }

abbrev toy_link : Link
toy_link = record {
  id = codes "n1";
  pub_key = replicate 32 1;
  paths = path ∷ [];
  cur = none;
  switched_at = 0;
  heard_at = 0;
}

abbrev toy_peer : Peer
toy_peer = record {
  rec = toy_record;
  hb = some toy_heartbeat;
  seen_at = 50;
  silent = false;
  probe_at = 0;
  probe_ok = false;
  probe_round = 0;
  judge = judge_for options;
  ln = toy_link;
  hosts = [];
}

abbrev mesh : Directory
mesh = record (new_directory options) { peers = (codes "n1", toy_peer) ∷ [] }

abbrev no_config : NodeConfig
no_config = record {
  endpoint = [];
  net_addr = [];
  token = [];
  genesis_id = [];
  archival = false;
  max_block_history_lookback = 0;
  enable_developer_api = false;
  enable_follow_mode = false;
  enable_experimental_api = false;
  enable_time_travel = false;
  max_acct_lookback = 0;
  storage_engine = [];
  rest_write_timeout_seconds = pos 0;
  mod_time = 0;
}

abbrev pub idle_node : LocalState
idle_node = record {
  online = true;
  last_round = 5000;
  caps = stock_caps;
  config = no_config;
  config_ok = true;
  verified = false;
  last_status = none;
  last_error = [];
  endpoint = [];
  seq = 1;
  limits_known = true;
}

handle_trusted_example :
    IsIgnored mesh (handle nat_float toy_net options toy_signing mesh idle_node 60 [] toy_wire)
    ⊎ IsSigned toy_signing mesh toy_wire
handle_trusted_example =
    handle_trusted nat_float toy_net options toy_signing mesh idle_node 60 [] toy_wire

-- The same datagram twice.
abbrev again : Arrival
again = record { node = idle_node; at = 55; origin = []; payload = toy_wire }

known : IsKnownFrom nat_float toy_net options toy_signing (codes "n1") 1 50 mesh
unfolding lookup eqb new_directory
known = (toy_peer, refl, (toy_heartbeat, refl, omega arith), omega arith)

receive_never_back_example :
    IsKnownFrom nat_float toy_net options toy_signing
      (codes "n1")
      1
      50
      (receive nat_float toy_net options toy_signing mesh (again ∷ again ∷ []))
receive_never_back_example =
    receive_never_back nat_float toy_net options toy_signing (codes "n1") 1 50 mesh
      (again ∷ again ∷ []) ((omega arith, refl), ((omega arith, refl), tt)) known

set_records_peers_example :
    let d' = (set_records toy_net options 60 mesh idle_node (toy_record ∷ [])).0 in
    (is_some (lookup (codes "n1") d'.peers)
      ≡ any (is_peer_record options (codes "mainnet-v1.0") (codes "n1")) (toy_record ∷ []))
    × (is_some (lookup (codes "n1") d'.balancers)
        ≡ any (is_balancer_record options (codes "mainnet-v1.0") (codes "n1")) (toy_record ∷ []))
set_records_peers_example =
    set_records_peers toy_net options 60 (codes "n1") mesh idle_node (toy_record ∷ [])

abbrev seen_stats : Bytes → Stats ℕ
seen_stats id = idle_stats

abbrev seen_peer : Upstream ℕ
seen_peer = record peer_node { id = codes "n1"; score = 20 }

abbrev picked : Selection ℕ
picked = record { chosen = seen_peer; alternates = []; tier = pos 1 }

picks : Unit {0}
unfolding select pick choose_index same_tier pool indices draw_two before effective_tier
    state_window_edge scored score weigh sort_by insert_by lookup stat_key eligible round_eligible
    window_covers state_window_covers state_oldest heavy in_sync fits reachable eqb ltb_bytes
    directory_snapshot peer_upstreams peer_upstream external_upstreams best_round_at best_peer
    best_external peer_round judge judge_reachable observe new_directory endpoint_for cur_addr
picks = tt

pick_run :
    select fallback
      (directory_snapshot nat_float toy_net options seen_stats idle_node 60 mesh).1.cands
      read
      5000
      1
      no_weights
      none
    ≡ some picked
unfolding picks
pick_run = refl

snapshot_pick-IsLive_example :
    (e : Bytes × Peer) × Among e mesh.peers
    × (e.0 ≡ codes "n1")
    × (is_excluded options e.0 ≡ false)
    × IsLive options 60 e.1
snapshot_pick-IsLive_example =
    snapshot_pick-IsLive nat_float toy_net options seen_stats idle_node 60 fallback read 5000 1
      no_weights none nat_float-IsOrdered tt mesh picked pick_run refl
