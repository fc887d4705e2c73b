-- ===== src/Domain/Fleet.antt =====
-- The simulate limits of the fleet: `FleetSimulateLimits` of internal/domain/eligible.go.
pub mod Promise
use algod_loadb_mesh.Base.{
  ℕ, Bool, true, not, ◌&&◌, ◌||◌, Option, none, some, List, [], ◌∷◌, ltb, ◌==◌, if◌then◌else◌,
  is_some, differ, ltb_bytes,
}
use algod_loadb_mesh.Domain.Capabilities.{simulate_limits}
use algod_loadb_mesh.Domain.Eligible.{eligible}
use algod_loadb_mesh.Domain.Request.{RequestClass, empty_class}
use algod_loadb_mesh.Domain.Upstream.{Upstream}

pub record FleetSimulateLimitsReply : Type 0 where
  pub developer_api : Bool
  pub max_extra_opcode_budget : ℕ
  pub max_rounds : ℕ
  pub max_txn_groups : ℕ
  pub resource_limit_multiplier : ℕ
  pub time_travel : Bool
  pub max_exec_trace_bytes : ℕ
  pub time_limit_seconds : ℕ

-- The class of a plain simulate request.
abbrev pub plain : RequestClass
plain = record empty_class { simulate = true; idempotent = true }

-- `best` and `multiplier` of the loop.
pub record Found (R : Type 0) : Type 0 where
  pub best : Option (Upstream R)
  pub multiplier : ℕ

module _ {R : Type 0} where
  -- `simulateLimitsAbove`.
  unfoldable pub simulate_limits_above : Upstream R → Upstream R → Bool
  simulate_limits_above a b =
      let la = simulate_limits a.caps in
      let lb = simulate_limits b.caps in
      if not (la.max_txn_groups == lb.max_txn_groups)
      then ltb lb.max_txn_groups la.max_txn_groups
      else if not (la.max_rounds == lb.max_rounds)
      then ltb lb.max_rounds la.max_rounds
      else if not (la.max_extra_opcode_budget == lb.max_extra_opcode_budget)
      then ltb lb.max_extra_opcode_budget la.max_extra_opcode_budget
      else if differ a.caps.time_travel b.caps.time_travel
      then a.caps.time_travel
      else if differ a.caps.developer_api b.caps.developer_api
      then a.caps.developer_api
      else ltb_bytes a.id b.id

  abbrev pub better_than : Option (Upstream R) → Upstream R → Bool
  better_than none u = true
  better_than (some b) u = simulate_limits_above u b

  -- The body of the loop for an eligible upstream.
  unfoldable pub note : Found R → Upstream R → Found R
  note s u =
      let m = (simulate_limits u.caps).resource_limit_multiplier in
      record {
        best = if is_some u.caps.simulate && better_than s.best u then some u else s.best;
        multiplier = if (s.multiplier == 0) || ltb m s.multiplier then m else s.multiplier;
      }

  unfoldable pub search_fleet : ℕ → ℕ → Found R → List (Upstream R) → Found R
  search_fleet best tol s [] = s
  search_fleet best tol s (u ∷ us) =
      search_fleet best tol (if eligible u plain best tol then note s u else s) us

  unfoldable pub reply_of : ℕ → Option (Upstream R) → Option FleetSimulateLimitsReply
  reply_of multiplier none = none
  reply_of multiplier (some u) =
      let l = simulate_limits u.caps in
      some (record {
        developer_api = u.caps.developer_api;
        max_extra_opcode_budget = l.max_extra_opcode_budget;
        max_rounds = l.max_rounds;
        max_txn_groups = l.max_txn_groups;
        resource_limit_multiplier = multiplier;
        time_travel = u.caps.time_travel;
        max_exec_trace_bytes = l.max_exec_trace_bytes;
        time_limit_seconds = l.time_limit_seconds;
      })

  unfoldable pub fleet_simulate_limits : List (Upstream R) → ℕ → ℕ → Option FleetSimulateLimitsReply
  unfolding reply_of
  fleet_simulate_limits us best tol =
      let found = search_fleet best tol (record { best = none; multiplier = 0 }) us in
      reply_of found.multiplier found.best
