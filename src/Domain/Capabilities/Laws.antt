-- ===== src/Domain/Capabilities/Laws.antt =====
-- The overrides of a node's capabilities, and its simulate limits.
use algod_loadb_mesh.Base.{
  ℕ, ◌≤◌, ◌<◌, ◌≡◌, refl, ap, inl, inr, Option, none, some, arith, Option-cases,
}
use algod_loadb_mesh.Domain.Capabilities.{
  Archival, oldest_round_for, SimulateLimits, max_simulate_groups, max_simulate_rounds,
  max_extra_opcode_budget_ceiling, max_resource_limit_multiplier, Capabilities, CapabilityOverrides,
  override, apply_archival, apply, clamp_limits, limits_of, simulate_limits,
}

pub record IsClamped (l : SimulateLimits) : Type 0 where
  pub groups_pos : 0 < l.max_txn_groups
  pub groups_le : l.max_txn_groups ≤ max_simulate_groups
  pub rounds_le : l.max_rounds ≤ max_simulate_rounds
  pub budget_pos : 0 < l.max_extra_opcode_budget
  pub budget_le : l.max_extra_opcode_budget ≤ max_extra_opcode_budget_ceiling
  pub multiplier_pos : 0 < l.resource_limit_multiplier
  pub multiplier_le : l.resource_limit_multiplier ≤ max_resource_limit_multiplier

clamp_limits-IsClamped : (l : SimulateLimits) → IsClamped (clamp_limits l)
unfolding clamp_limits
clamp_limits-IsClamped l = ground arith

pub simulate_limits-IsClamped : (c : Capabilities) → IsClamped (simulate_limits c)
unfolding simulate_limits
simulate_limits-IsClamped c = elim (Option-cases c.simulate) [
  | inl e ↦ rw (e, simulate_limits, limits_of) (omega arith)
  | inr (l, e) ↦ rw (e, simulate_limits, limits_of) (clamp_limits-IsClamped l)
]

clamp_limits_idem : (l : SimulateLimits) → IsClamped l → clamp_limits l ≡ l
unfolding clamp_limits
clamp_limits_idem l h = ground arith

-- A node that advertises its effective limits is read as having exactly those: the clamp is
-- idempotent across the fleet.
pub simulate_limits_stable :
    (c : Capabilities)
    → simulate_limits (record c { simulate = some (simulate_limits c) }) ≡ simulate_limits c
unfolding simulate_limits
simulate_limits_stable c = clamp_limits_idem (simulate_limits c) (simulate_limits-IsClamped c)

-- The oldest round that is advertised is the one that the archival mode gives at `last_round`.
abbrev IsConsistent : Capabilities → ℕ → Type 0
IsConsistent c last_round = c.oldest_round ≡ oldest_round_for c.archival last_round

apply_archival-IsConsistent :
    (a : Option Archival) (c : Capabilities) (last_round : ℕ)
    → IsConsistent c last_round
    → IsConsistent (apply_archival a c last_round) last_round
unfolding apply_archival
apply_archival-IsConsistent none c last_round h = h
apply_archival-IsConsistent (some a) c last_round h = refl

-- What a nil or a set pointer leaves of a capability.
pub record IsOverridden (o : CapabilityOverrides) (c d : Capabilities) (last_round : ℕ)
    : Type 0 where
  pub archival_set : d.archival ≡ override o.archival c.archival
  pub developer_set : d.developer_api ≡ override o.developer_api c.developer_api
  pub follow_set : d.follow_mode ≡ override o.follow_mode c.follow_mode
  pub travel_set : d.time_travel ≡ override o.time_travel c.time_travel
  pub limits_kept : o.simulate ≡ none → d.simulate ≡ c.simulate
  pub limits_set : (l : SimulateLimits) → o.simulate ≡ some l → d.simulate ≡ some l
  pub oldest_kept : IsConsistent c last_round → IsConsistent d last_round

apply_archival-IsOverridden :
    (a : Option Archival) (c : Capabilities) (last_round : ℕ)
    → (apply_archival a c last_round).archival ≡ override a c.archival
unfolding apply_archival
apply_archival-IsOverridden none c last_round = refl
apply_archival-IsOverridden (some a) c last_round = refl

-- `apply_archival` leaves the other capabilities alone.
apply_archival-rest :
    (a : Option Archival) (c : Capabilities) (last_round : ℕ)
    → let d = apply_archival a c last_round in
      (d.developer_api ≡ c.developer_api)
      × (d.follow_mode ≡ c.follow_mode)
      × (d.time_travel ≡ c.time_travel)
      × (d.simulate ≡ c.simulate)
unfolding apply_archival
apply_archival-rest none c last_round = (refl, refl, refl, refl)
apply_archival-rest (some a) c last_round = (refl, refl, refl, refl)

-- An override replaces the capabilities it sets, at most the archival mode, developer API, follow
-- mode, time travel and simulate limits, keeps those it leaves out, and keeps the advertised
-- oldest round that of the archival mode.
pub apply-IsOverridden :
    (o : CapabilityOverrides) (c : Capabilities) (last_round : ℕ)
    → IsOverridden o c (apply (some o) c last_round) last_round
unfolding apply
apply-IsOverridden o c last_round =
    let rest = apply_archival-rest o.archival c last_round in
    record {
      archival_set = apply_archival-IsOverridden o.archival c last_round;
      developer_set = ap (override o.developer_api) rest.0;
      follow_set = ap (override o.follow_mode) rest.1;
      travel_set = ap (override o.time_travel) rest.2;
      limits_kept = λ e. rw e rest.3;
      limits_set = λ l e. rw e;
      oldest_kept = apply_archival-IsConsistent o.archival c last_round;
    }
