-- ===== src/Domain/Eligible/Spec.antt =====
-- What `eligible` means: the rules of its documentation, as conditions on the upstream that make no
-- use of the functions of the source.
use algod_loadb_mesh.Base.{
  ℕ, ◌+◌, ◌-◌, ◌≤◌, ◌≡◌, ◌⊎◌, true, false, ◌&&◌, ◌||◌, Option, none, some, ◌==◌, if◌then◌else◌,
  add_word,
}
use algod_loadb_mesh.Domain.Capabilities.{Capabilities, SimulateLimits, simulate_limits}
use algod_loadb_mesh.Domain.Upstream.{online, synced, reachable, local, Upstream}
use algod_loadb_mesh.Domain.Request.{is_block, is_delta, SimulateNeeds, RequestClass}

-- A condition on a value that may be absent.
abbrev pub OnSome {ℓ} : {A : Type ℓ} → (A → Type 0) → Option A → Type 0
OnSome P none = Unit {0}
OnSome P (some a) = P a

-- A node runs a simulation that needs `n`.
pub record CanRun (c : Capabilities) (n : SimulateNeeds) : Type 0 where
  pub forked : n.fork ≡ true → (l : SimulateLimits) × (c.simulate ≡ some l)
  pub developer : n.developer_api ≡ true → c.developer_api ≡ true
  pub groups_le : n.groups ≤ (simulate_limits c).max_txn_groups
  pub rounds_le : n.rounds ≤ (simulate_limits c).max_rounds
  pub budget_le : n.extra_opcode_budget ≤ (simulate_limits c).max_extra_opcode_budget

abbrev pub Latest : SimulateNeeds → Type 0
Latest n = n.latest ≡ true

module _ {R : Type 0} where
  -- Judged in sync, or not judged and within the tolerance of the best round.
  abbrev pub IsCurrent : Upstream R → ℕ → ℕ → Type 0
  IsCurrent u best tol =
      (u.health ≡ synced) ⊎ ((u.health ≡ online) × (best ≤ add_word u.last_round tol))

  -- The first round that the node answers a request of class `c` for.
  abbrev pub first_round : Upstream R → RequestClass → ℕ
  first_round u c =
      if u.caps.time_travel && c.history_any_round
      then 0
      else if u.caps.time_travel || is_block c.round_window || (u.caps.max_acct_lookback == 0)
      then u.caps.oldest_round
      else (u.last_round - u.caps.max_acct_lookback) + (if is_delta c.round_window then 1 else 0)

  -- The round of the request, if it names one, is held; else the node is current, unless the
  -- request is for the local node alone.
  abbrev pub HoldsRound : Upstream R → RequestClass → ℕ → ℕ → Option ℕ → Type 0
  HoldsRound u c best tol none = c.local_only ≡ false → IsCurrent u best tol
  HoldsRound u c best tol (some r) =
      (first_round u c ≤ r)
      × (r ≤ u.last_round)
      × (c.round_high ≤ u.last_round)
      × OnSome (λ n. Latest n → IsCurrent u best tol) c.sim_needs

  pub record Serves (u : Upstream R) (c : RequestClass) (best tol : ℕ) : Type 0 where
    pub included : u.excluded ≡ false
    pub up : reachable u.health ≡ true
    pub staying : u.draining ≡ false
    pub closed : u.stats.breaker_open ≡ false
    pub unthrottled : u.stats.throttled ≡ false
    pub free : (c.simulate ≡ true) ⊎ (c.deltas ≡ true) → u.stats.busy ≡ false
    pub at_home : c.local_only ≡ true → u.kind ≡ local
    pub history : c.time_travel ≡ true → u.caps.time_travel ≡ true
    pub rounds : HoldsRound u c best tol c.round
    pub near : OnSome (λ r. r ≤ add_word u.last_round 1) c.wait_after
    pub developer : c.needs_dev ≡ true → u.caps.developer_api ≡ true
    pub room : OnSome (CanRun u.caps) c.sim_needs
    pub participates : c.broadcast ≡ true → u.caps.follow_mode ≡ false
