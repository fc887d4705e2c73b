-- ===== src/Domain/Plan.antt =====
-- What a client may spend: internal/domain/ratelimit.go. A bucket's level is a float64. The counts of
-- `SimulateCaps` and `SimulateNeeds` are ints that are never negative, whose product stays in range.
pub mod Refill
pub mod Check
use algod_loadb_mesh.Base.{
  ℕ, ◌*◌, max, Bool, false, not, ◌&&◌, ◌||◌, Option, none, some, List, [], ◌∷◌, ltb, if◌then◌else◌,
  Time, Duration, is_zero, sub_time, second, Bytes, codes, pos, ltb_ℤ, lookup, Float, ge, add_word,
}
use algod_loadb_mesh.Domain.Request.{SimulateNeeds, RequestClass, stat_key}

-- `Window`; a period is a duration.
pub record PlanWindow (R : Type 0) : Type 0 where
  pub capacity : R
  pub period : Duration

pub record Bucket (R : Type 0) : Type 0 where
  pub level : R
  pub at_time : Time

pub record SimulateCaps : Type 0 where
  pub max_groups : ℕ
  pub max_rounds : ℕ
  pub max_extra_opcode_budget : ℕ
  pub deny_unnamed_resources : Bool
  pub deny_exec_trace : Bool

pub record Plan (R : Type 0) : Type 0 where
  pub name : Bytes
  pub minute : PlanWindow R
  pub day : PlanWindow R
  pub simulate : SimulateCaps

module _ {R : Type 0} ⦃f : Float R⦄ where
  unfoldable pub limited : PlanWindow R → Bool
  limited w = f.lt (f.of_nat 0) w.capacity && ltb_ℤ (pos 0) w.period

  -- `rate`.
  abbrev refill_rate : PlanWindow R → R
  refill_rate w = f.div w.capacity (f.seconds w.period)

  -- `b.Level = min(b.Level, w.Capacity)`.
  abbrev cap_level : PlanWindow R → Bucket R → Bucket R
  cap_level w b = record b { level = f.min b.level w.capacity }

  unfoldable pub refill : PlanWindow R → Bucket R → Time → Bucket R
  refill w b now =
      let dt = sub_time now b.at_time in
      if not (limited w)
      then record { level = f.of_nat 0; at_time = now }
      else if is_zero b.at_time
      then record { level = w.capacity; at_time = now }
      else if ltb_ℤ (pos 0) dt
      then cap_level w
          (record { level = f.add b.level (f.mul (f.seconds dt) (refill_rate w)); at_time = now })
      else cap_level w b

  unfoldable pub wait : PlanWindow R → R → R → Duration
  wait w level cost =
      if not (limited w) || ge f level cost
      then pos 0
      else f.to_duration
          (f.ceil (f.mul (f.div (f.sub cost level) (refill_rate w)) (f.of_nat second)))

  unfoldable until_full : PlanWindow R → R → Duration
  until_full w level = wait w level w.capacity

  unfoldable pub full : PlanWindow R → Bucket R → Bool
  full w b = not (limited w) || ge f b.level w.capacity

-- The reasons of `Check`, which it words as text; no reason is the empty text.
pub data Beyond : Type 0 where
  too_many_groups too_many_rounds : ℕ → Beyond
  too_much_budget : ℕ → Beyond
  no_unnamed_resources no_exec_trace : Beyond

unfoldable pub check : SimulateCaps → SimulateNeeds → Option Beyond
check c n =
    if ltb 0 c.max_groups && ltb c.max_groups n.groups
    then some (too_many_groups c.max_groups)
    else if ltb 0 c.max_rounds && ltb c.max_rounds n.rounds
    then some (too_many_rounds c.max_rounds)
    else if ltb 0 c.max_extra_opcode_budget && ltb c.max_extra_opcode_budget n.extra_opcode_budget
    then some (too_much_budget c.max_extra_opcode_budget)
    else if c.deny_unnamed_resources && n.unnamed_resources
    then some no_unnamed_resources
    else if c.deny_exec_trace && n.exec_trace
    then some no_exec_trace
    else none

abbrev recent_delta_rounds : ℕ
recent_delta_rounds = 8

-- A state delta that is re-evaluated from the history.
abbrev is_past_delta : RequestClass → Option ℕ → ℕ → Bool
is_past_delta c none best = false
is_past_delta c (some r) best = c.deltas && ltb (add_word r recent_delta_rounds) best

unfoldable pub cost_key : RequestClass → ℕ → Bytes
cost_key c best =
    if c.versions
    then codes "versions"
    else if is_past_delta c c.round best
    then codes "deltas_history"
    else stat_key c

abbrev pub CostWeights : Type 0 → Type 0
CostWeights R = List (Bytes × R)

module _ {R : Type 0} ⦃f : Float R⦄ where
  abbrev pub default_cost_weights : CostWeights R
  default_cost_weights =
      (codes "default", f.of_nat 1)
      ∷ (codes "round", f.of_nat 1)
      ∷ (codes "timetravel", f.of_nat 2)
      ∷ (codes "simulate", f.of_nat 5)
      ∷ (codes "broadcast", f.of_nat 1)
      ∷ (codes "pending", f.of_nat 1)
      ∷ (codes "wait", f.of_nat 1)
      ∷ (codes "teal", f.of_nat 1)
      ∷ (codes "versions", f.of_nat 10)
      ∷ (codes "deltas_history", f.of_nat 50)
      ∷ []

  -- A read of a key that is missing gives 0.
  abbrev pub or_zero : Option R → R
  or_zero none = f.of_nat 0
  or_zero (some v) = v

  abbrev pub times : R → Bool → Option SimulateNeeds → R
  times v simulate none = v
  times v simulate (some n) =
      if simulate then f.mul v (f.of_nat (max n.groups 1 * max n.rounds 1)) else v

  -- `Base`.
  unfoldable pub base_cost : CostWeights R → RequestClass → ℕ → R
  base_cost w c best = times (or_zero (lookup (cost_key c best) w)) c.simulate c.sim_needs
