-- ===== src/Domain/Capabilities.antt =====
-- What a node can do: internal/domain/types.go from `ArchivalKind` to `Capabilities.SimulateLimits`.
-- Texts are byte lists; every uint64 is a native number, and where the source adds, the sum wraps.
pub mod Laws
use algod_loadb_mesh.Base.{
  ℕ, ◌-◌, min, max, Bool, Option, none, some, leb, ◌==◌, if◌then◌else◌, Bytes, codes, eqb,
}

-- `ArchivalKind` is a string type: a kind that is none of the first three is read as the last.
abbrev ArchivalKind : Type 0
ArchivalKind = Bytes

abbrev pub archival_full : ArchivalKind
archival_full = codes "full"

abbrev pub archival_trailing : ArchivalKind
archival_trailing = codes "trailing"

abbrev pub archival_since : ArchivalKind
archival_since = codes "since"

abbrev pub archival_none : ArchivalKind
archival_none = codes "none"

pub record Archival : Type 0 where
  pub kind : ArchivalKind
  pub n : ℕ

abbrev default_non_archival_window : ℕ
default_non_archival_window = 1000

-- `lastRound - n`, with 0 where that would be below it.
abbrev window_start : ℕ → ℕ → ℕ
window_start last_round n = if leb last_round n then 0 else last_round - n

unfoldable pub oldest_round_for : Archival → ℕ → ℕ
oldest_round_for a last_round =
    if eqb a.kind archival_full
    then 0
    else if eqb a.kind archival_trailing
    then window_start last_round a.n
    else if eqb a.kind archival_since
    then a.n
    else window_start last_round default_non_archival_window

pub record SimulateLimits : Type 0 where
  pub max_txn_groups : ℕ
  pub max_rounds : ℕ
  pub max_extra_opcode_budget : ℕ
  pub resource_limit_multiplier : ℕ
  pub max_exec_trace_bytes : ℕ
  pub time_limit_seconds : ℕ

abbrev stock_max_extra_opcode_budget : ℕ
stock_max_extra_opcode_budget = 320000

abbrev stock_simulate_limits : SimulateLimits
stock_simulate_limits = record {
  max_txn_groups = 1;
  max_rounds = 0;
  max_extra_opcode_budget = stock_max_extra_opcode_budget;
  resource_limit_multiplier = 1;
  max_exec_trace_bytes = 0;
  time_limit_seconds = 0;
}

abbrev pub max_simulate_groups : ℕ
max_simulate_groups = 256

abbrev pub max_simulate_rounds : ℕ
max_simulate_rounds = 256

abbrev pub max_extra_opcode_budget_ceiling : ℕ
max_extra_opcode_budget_ceiling = 320000000

abbrev pub max_resource_limit_multiplier : ℕ
max_resource_limit_multiplier = 1024

pub record Capabilities : Type 0 where
  pub oldest_round : ℕ
  pub archival : Archival
  pub developer_api : Bool
  pub follow_mode : Bool
  pub experimental_api : Bool
  pub time_travel : Bool
  pub simulate : Option SimulateLimits
  pub algod_version : Bytes
  pub genesis_id : Bytes
  pub storage_engine : Bytes
  pub max_acct_lookback : ℕ

pub record CapabilityOverrides : Type 0 where
  pub archival : Option Archival
  pub developer_api : Option Bool
  pub follow_mode : Option Bool
  pub time_travel : Option Bool
  pub simulate : Option SimulateLimits

-- A set pointer replaces the value, a nil one keeps it.
abbrev pub override {ℓ} : {A : Type ℓ} → Option A → A → A
override none a = a
override (some b) a = b

-- `if o.Archival != nil`: the mode, and the oldest round that follows from it.
pub apply_archival : Option Archival → Capabilities → ℕ → Capabilities
apply_archival none c last_round = c
apply_archival (some a) c last_round = record c {
  archival = a;
  oldest_round = oldest_round_for a last_round;
}

-- `if o.Simulate != nil`: the overridden limits are always present.
abbrev override_simulate : Option SimulateLimits → Option SimulateLimits → Option SimulateLimits
override_simulate none l = l
override_simulate (some l') l = some l'

-- `(*CapabilityOverrides).Apply`, the receiver a pointer that may be nil.
unfoldable pub apply : Option CapabilityOverrides → Capabilities → ℕ → Capabilities
unfolding apply_archival
apply none c last_round = c
apply (some o) c last_round =
    let c' = apply_archival o.archival c last_round in
    record c' {
      developer_api = override o.developer_api c'.developer_api;
      follow_mode = override o.follow_mode c'.follow_mode;
      time_travel = override o.time_travel c'.time_travel;
      simulate = override_simulate o.simulate c'.simulate;
    }

-- The reported limits as dtalgorand reads its config.
unfoldable pub clamp_limits : SimulateLimits → SimulateLimits
clamp_limits l = record l {
  max_txn_groups = min (max l.max_txn_groups 1) max_simulate_groups;
  max_rounds = min l.max_rounds max_simulate_rounds;
  max_extra_opcode_budget =
      min
        (if l.max_extra_opcode_budget == 0
          then stock_max_extra_opcode_budget
          else l.max_extra_opcode_budget)
        max_extra_opcode_budget_ceiling;
  resource_limit_multiplier = min (max l.resource_limit_multiplier 1) max_resource_limit_multiplier;
}

pub limits_of : Option SimulateLimits → SimulateLimits
unfolding clamp_limits
limits_of none = stock_simulate_limits
limits_of (some l) = clamp_limits l

-- `Capabilities.SimulateLimits`.
unfoldable pub simulate_limits : Capabilities → SimulateLimits
unfolding limits_of
simulate_limits c = limits_of c.simulate
