-- ===== src/Tests/Fixtures.antt =====
-- The nodes and requests of the tests. Natural numbers stand for float64.
use algod_loadb_mesh.Base.{
  ℕ, ◌+◌, ◌-◌, ◌*◌, ◌/◌, min, true, false, none, some, List, [], ◌∷◌, arith, ltb, ◌==◌, second,
  codes, pos, pos_part, Float, IsOrdered,
}
use algod_loadb_mesh.Domain.Capabilities.{SimulateLimits, Capabilities}
use algod_loadb_mesh.Domain.Request.{RequestClass, empty_class}
use algod_loadb_mesh.Domain.Select.{Weights}
use algod_loadb_mesh.Domain.Upstream.{synced, local, peer, Stats, Upstream}

instance abbrev pub nat_float : Float ℕ
nat_float = record {
  of_nat = λ n. n;
  add = λ a b. a + b;
  sub = λ a b. a - b;
  mul = λ a b. a * b;
  div = λ a b. a / b;
  lt = ltb;
  eq = ◌==◌;
  min = λ a b. min a b;
  seconds = λ d. pos_part d / second;
  ceil = λ a. a;
  to_duration = pos;
}

pub nat_float-IsOrdered : IsOrdered nat_float
nat_float-IsOrdered = record {
  lt_asymm = λ a b h. ground arith;
  lt_trans = λ a b c h k. ground arith;
  lt_connex = λ a b h k. ground arith;
  eq_of_not_lt = λ a b h k. ground arith;
  eq_symm = λ a b h. ground arith;
  eq_trans = λ a b c h k. ground arith;
  lt_eq = λ a b c h k. ground arith;
  eq_lt = λ a b c h k. ground arith;
  lt_not_eq = λ a b h. ground arith;
  min_le = λ a b. ground arith;
  min_le_left = λ a b. ground arith;
}

abbrev fork_limits : SimulateLimits
fork_limits = record {
  max_txn_groups = 16;
  max_rounds = 8;
  max_extra_opcode_budget = 0;
  resource_limit_multiplier = 4;
  max_exec_trace_bytes = 0;
  time_limit_seconds = 30;
}

abbrev pub stock_caps : Capabilities
stock_caps = record {
  oldest_round = 4000;
  archival = record { kind = codes "none"; n = 0 };
  developer_api = false;
  follow_mode = false;
  experimental_api = false;
  time_travel = false;
  simulate = none;
  algod_version = codes "4.0";
  genesis_id = codes "mainnet-v1.0";
  storage_engine = codes "sqlite";
  max_acct_lookback = 4;
}

abbrev pub history_caps : Capabilities
history_caps = record stock_caps {
  time_travel = true;
  simulate = some fork_limits;
  max_acct_lookback = 8;
}

abbrev pub idle_stats : Stats ℕ
idle_stats = record {
  latency_ms = [];
  error_rate = 0;
  inflight = 0;
  breaker_open = false;
  throttled = false;
  busy = false;
}

abbrev pub peer_node : Upstream ℕ
peer_node = record {
  id = codes "peer";
  kind = peer;
  tier = pos 1;
  base_url = codes "http://10.0.0.2:8080";
  token = codes "t";
  health = synced;
  last_round = 5000;
  caps = stock_caps;
  draining = false;
  excluded = false;
  stats = idle_stats;
  source = codes "heartbeat";
  score = 0;
}

abbrev pub history_node : Upstream ℕ
history_node = record peer_node { id = codes "history"; caps = history_caps }

abbrev pub local_node : Upstream ℕ
local_node = record peer_node { id = codes "local"; kind = local; tier = pos 0 }

abbrev pub fleet : List (Upstream ℕ)
fleet = peer_node ∷ history_node ∷ local_node ∷ []

abbrev pub no_weights : Weights ℕ
no_weights = record {
  error_penalty_ms = 0;
  lag_penalty_ms = 0;
  inflight_ms = 0;
  local_bonus_ms = 0;
  unknown_lat_ms = 0;
  external_penalty = 0;
}

-- A read of the latest state.
abbrev pub read : RequestClass
read = record empty_class { idempotent = true }
