-- ===== src/App/Monitor.antt =====
-- What a node knows of its own algod: internal/app/monitor.go, and `NodeConfig` of internal/ports.
pub mod Oldest
use algod_loadb_mesh.Base.{
  ℕ, ◌*◌, max, Bool, true, false, ◌&&◌, Option, none, some, List, [], ◌∷◌, ltb, ◌==◌, if◌then◌else◌,
  Time, Bytes, eqb, ℤ, add_word,
}
use algod_loadb_mesh.Domain.Capabilities.{
  archival_full, archival_trailing, archival_none, Archival, oldest_round_for, SimulateLimits,
  Capabilities, CapabilityOverrides, apply,
}
use algod_loadb_mesh.Domain.Upstream.{online}

-- `NodeConfig`.
pub record NodeConfig : Type 0 where
  pub endpoint : Bytes
  pub net_addr : Bytes
  pub token : Bytes
  pub genesis_id : Bytes
  pub archival : Bool
  pub max_block_history_lookback : ℕ
  pub enable_developer_api : Bool
  pub enable_follow_mode : Bool
  pub enable_experimental_api : Bool
  pub enable_time_travel : Bool
  pub max_acct_lookback : ℕ
  pub storage_engine : Bytes
  pub rest_write_timeout_seconds : ℤ
  pub mod_time : Time

pub record LocalState : Type 0 where
  pub online : Bool
  pub last_round : ℕ
  pub caps : Capabilities
  pub config : NodeConfig
  pub config_ok : Bool
  pub verified : Bool
  pub last_status : Option Bytes
  pub last_error : Bytes
  pub endpoint : Bytes
  pub seq : ℕ
  pub limits_known : Bool

-- `capsFromConfig`.
abbrev config_archival : NodeConfig → Archival
config_archival cfg =
    if cfg.archival
    then record { kind = archival_full; n = 0 }
    else if ltb 0 cfg.max_block_history_lookback
    then record { kind = archival_trailing; n = cfg.max_block_history_lookback }
    else record { kind = archival_none; n = 0 }

unfoldable pub caps_from_config :
    NodeConfig → Capabilities → ℕ → Option CapabilityOverrides → Capabilities
caps_from_config cfg prev last_round ov =
    let a = config_archival cfg in
    apply ov
      (record {
        oldest_round = oldest_round_for a last_round;
        archival = a;
        developer_api = cfg.enable_developer_api;
        follow_mode = cfg.enable_follow_mode;
        experimental_api = cfg.enable_experimental_api;
        time_travel = cfg.enable_time_travel;
        simulate = prev.simulate;
        algod_version = prev.algod_version;
        genesis_id = cfg.genesis_id;
        storage_engine = cfg.storage_engine;
        max_acct_lookback = cfg.max_acct_lookback;
      })
      last_round

-- `update`: a change of the state counts up its number.
abbrev pub numbered : LocalState → LocalState
numbered s = record s { seq = add_word s.seq 1 }

-- What `readConfig` does to the state; an error is its text.
data ConfigRead : Type 0 where
  unreadable : Bytes → ConfigRead
  read : NodeConfig → ConfigRead

unfoldable read_config : Option CapabilityOverrides → ConfigRead → LocalState → LocalState
read_config ov (unreadable e) s = numbered (record s { config_ok = false; last_error = e })
read_config ov (read cfg) s = numbered (record s {
  config = cfg;
  config_ok = true;
  endpoint = cfg.endpoint;
  caps = caps_from_config cfg s.caps s.last_round ov;
  verified = s.verified && (s.config.mod_time == cfg.mod_time) && s.config_ok;
})

-- `algod.Status` and `WaitForBlockAfter`; `Versions`, none on an error; and the simulate limits that
-- the node reports, none on an error.
pub record NodeStatus : Type 0 where
  pub last_round : ℕ
  pub raw : Bytes

record Versions : Type 0 where
  build : Bytes
  genesis_id : Bytes

-- The end of both updates: the oldest round of the new last round, and the overrides.
abbrev at_round : Option CapabilityOverrides → NodeStatus → LocalState → LocalState
at_round ov st s =
    let oldest = oldest_round_for s.caps.archival st.last_round in
    record s {
      online = true;
      last_round = st.last_round;
      last_status = some st.raw;
      last_error = [];
      caps = apply ov (record s.caps { oldest_round = oldest }) st.last_round;
    }

abbrev with_versions : Option Versions → Capabilities → Capabilities
with_versions none c = c
with_versions (some v) c = record c {
  algod_version = v.build;
  genesis_id = if eqb c.genesis_id [] then v.genesis_id else c.genesis_id;
}

abbrev with_limits : Option (Option SimulateLimits) → LocalState → LocalState
with_limits none s = record s { limits_known = false }
with_limits (some lim) s = record s { limits_known = true; caps = record s.caps { simulate = lim } }

-- The update of `awaitOnline` when the node answers.
unfoldable came_online :
    Option CapabilityOverrides
    → NodeStatus
    → Option Versions
    → Option (Option SimulateLimits)
    → LocalState
    → LocalState
came_online ov st ver lim s =
    numbered (at_round ov st (with_limits lim (record s { caps = with_versions ver s.caps })))

-- The update of `awaitOnline` and of `watch` on an error, whose text it keeps.
unfoldable went_offline : Bytes → LocalState → LocalState
went_offline e s = numbered (record s { online = false; last_error = e })

abbrev late_limits : Option (Option SimulateLimits) → LocalState → LocalState
late_limits none s = s
late_limits (some lim) s =
    if s.limits_known
    then s
    else record s { limits_known = true; caps = record s.caps { simulate = lim } }

-- The update of `watch` on a new round. `lim` is what the node reports when the limits are not known.
unfoldable new_round :
    Option CapabilityOverrides
    → NodeStatus
    → Option (Option SimulateLimits)
    → LocalState
    → LocalState
new_round ov st lim s = numbered (at_round ov st (late_limits lim s))

-- `refreshLimits` once the node has answered.
unfoldable limits_again :
    Option CapabilityOverrides → Option SimulateLimits → LocalState → LocalState
limits_again ov lim s = numbered (record s {
  limits_known = true;
  caps = apply ov (record s.caps { simulate = lim }) s.last_round;
})

-- `backoff`, whose `next` returns the new `cur`.
pub record Backoff : Type 0 where
  pub base : ℕ
  pub max : ℕ
  pub cur : ℕ

unfoldable next_backoff : Backoff → Backoff
next_backoff b =
    if b.cur == 0
    then record b { cur = b.base }
    else record b { cur = if ltb b.max (b.cur * 2) then b.max else b.cur * 2 }

abbrev reset_backoff : Backoff → Backoff
reset_backoff b = record b { cur = 0 }

-- `WaitForBlockAfter` of the monitor, on the states that it reads one after the other; none is the
-- end of the context after them.
abbrev ready_status : ℕ → LocalState → Option Bytes
ready_status round s = if ltb round s.last_round then s.last_status else none

unfoldable wait_for_block : ℕ → List LocalState → Option Bytes
wait_for_block round [] = none
wait_for_block round (s ∷ later) =
    let rest = wait_for_block round later in
    elim (ready_status round s) [ none ↦ rest | some body ↦ some body ]
