-- ===== src/App/Router.antt =====
-- The pure parts of the router: internal/app/router.go. The handlers around them, which forward
-- requests over HTTP, are not modelled. What `checkExternals` and `Snapshot` of the directory give
-- is an argument: none when no external could be checked, else the fresh snapshot.
pub mod Demand
use algod_loadb_mesh.Base.{
  ℕ, Bool, not, ◌&&◌, ◌||◌, Option, none, some, List, [], ◌∷◌, ltb, ◌==◌, if◌then◌else◌, is_some,
  Bytes, eqb, keep, any, Float,
}
use algod_loadb_mesh.Domain.Eligible.{eligible}
use algod_loadb_mesh.Domain.Request.{RequestClass, empty_class, heavy}
use algod_loadb_mesh.Domain.Select.{Mode, Weights, Selection, select}
use algod_loadb_mesh.Domain.Upstream.{is_external, Upstream}

pub record RouterOptions (R : Type 0) : Type 0 where
  pub mode : Mode
  pub sync_tolerance : ℕ
  pub weights : Weights R
  pub balancer : Bool

-- A snapshot of the directory: the candidates and the best round.
pub record Snapshot (R : Type 0) : Type 0 where
  pub cands : List (Upstream R)
  pub best : ℕ

abbrev pub may_use_externals : RequestClass → Bool
may_use_externals class = not class.local_only

-- `withheldStatus`.
abbrev pub withheld_status : ℕ → Bool
withheld_status code = (code == 502) || (code == 503) || (code == 504)

-- `fanRank`, of the status of an answer; none is a transport error.
unfoldable pub fan_rank : Option ℕ → ℕ
fan_rank none = 0
fan_rank (some status) = if withheld_status status then 1 else 2

module _ {R : Type 0} where
  -- `anySimulateLimits`, `anyBusy` and `anyTimeTravel`.
  unfoldable pub any_simulate_limits : List (Upstream R) → Bool
  any_simulate_limits = any (λ u. is_some u.caps.simulate && not u.excluded)

  unfoldable pub any_busy : List (Upstream R) → Bool
  any_busy = any (λ u. u.stats.busy && not u.excluded)

  unfoldable pub any_time_travel : List (Upstream R) → Bool
  any_time_travel = any (λ u. u.caps.time_travel && not u.excluded)

  -- `meshFirst`.
  abbrev or_every : List (Upstream R) → List (Upstream R) → List (Upstream R)
  or_every [] every = every
  or_every (u ∷ us) every = u ∷ us

  unfoldable mesh_first : List (Upstream R) → List (Upstream R)
  mesh_first us = or_every (keep (λ u. not (is_external u.kind)) us) us

  -- `dedupeByURL`, past the addresses that were seen.
  unfoldable dedupe_from : List Bytes → List (Upstream R) → List (Upstream R)
  dedupe_from seen [] = []
  dedupe_from seen (u ∷ us) =
      let fresh = u ∷ dedupe_from (u.base_url ∷ seen) us in
      let rest = dedupe_from seen us in if any (λ s. eqb s u.base_url) seen then rest else fresh

  unfoldable dedupe_by_url : List (Upstream R) → List (Upstream R)
  dedupe_by_url = dedupe_from []

  -- The inner loop of `sortByRoundDesc`, on the sorted upstreams before the i-th.
  unfoldable insert_desc : Upstream R → List (Upstream R) → List (Upstream R)
  insert_desc u [] = u ∷ []
  insert_desc u (v ∷ vs) =
      let rest = insert_desc u vs in if ltb v.last_round u.last_round then u ∷ v ∷ vs else v ∷ rest

  abbrev sort_from : List (Upstream R) → List (Upstream R) → List (Upstream R)
  sort_from sorted [] = sorted
  sort_from sorted (u ∷ us) = sort_from (insert_desc u sorted) us

  unfoldable sort_by_round_desc : List (Upstream R) → List (Upstream R)
  sort_by_round_desc = sort_from []

  -- `anyEligible`.
  unfoldable pub any_eligible : RouterOptions R → List (Upstream R) → ℕ → Bool
  any_eligible o cands best = any (λ u. eligible u empty_class best o.sync_tolerance) cands

-- The answers of `noUpstream`, which the source words as text, all with status 503; only a busy
-- fleet asks for a retry.
pub data Unroutable : Type 0 where
  no_local_node no_history all_busy none_eligible : Unroutable

module _ {R : Type 0} ⦃f : Float R⦄ where
  unfoldable pub no_upstream : RouterOptions R → RequestClass → List (Upstream R) → Unroutable
  no_upstream o class cands =
      if class.local_only && o.balancer
      then no_local_node
      else if class.time_travel && not (any_time_travel cands)
      then no_history
      else if heavy class && any_busy cands
      then all_busy
      else none_eligible

  -- `sel`.
  unfoldable pub sel :
      RouterOptions R
      → List (Upstream R)
      → RequestClass
      → ℕ
      → Option (ℕ → ℕ → ℕ)
      → Option (Selection R)
  sel o cands class best rnd = select o.mode cands class best o.sync_tolerance o.weights rnd

  -- The selection, with the candidates and the best round that it was made of.
  abbrev on_demand :
      RouterOptions R
      → RequestClass
      → Snapshot R
      → Option (Snapshot R)
      → Option (ℕ → ℕ → ℕ)
      → Option (Selection R) × Snapshot R
  on_demand o class s none rnd = (none, s)
  on_demand o class s (some t) rnd =
      if not (may_use_externals class) then (none, s) else (sel o t.cands class t.best rnd, t)

  abbrev or_checked :
      Option (Selection R)
      → Snapshot R
      → Option (Selection R) × Snapshot R
      → Option (Selection R) × Snapshot R
  or_checked (some x) s later = (some x, s)
  or_checked none s later = later

  -- `pick`; the two selections have draws of their own.
  unfoldable pub pick_upstream :
      RouterOptions R
      → RequestClass
      → Snapshot R
      → Option (Snapshot R)
      → Option (ℕ → ℕ → ℕ)
      → Option (ℕ → ℕ → ℕ)
      → Option (Selection R) × Snapshot R
  pick_upstream o class s checked rnd later =
      or_checked (sel o s.cands class s.best rnd) s (on_demand o class s checked later)

  -- `externalFallback`, for the upstreams that were tried.
  abbrev pub fallback_on :
      RouterOptions R
      → RequestClass
      → Option (Snapshot R)
      → Option (ℕ → ℕ → ℕ)
      → Option (Selection R)
  fallback_on o class none rnd = none
  fallback_on o class (some t) rnd = sel o (keep (λ u. is_external u.kind) t.cands) class t.best rnd

  unfoldable pub external_fallback :
      RouterOptions R
      → RequestClass
      → List (Upstream R)
      → Option (Snapshot R)
      → Option (ℕ → ℕ → ℕ)
      → Option (Selection R)
  external_fallback o class tried checked rnd =
      if not (may_use_externals class)
      then none
      else if any (λ u. is_external u.kind) tried
      then none
      else fallback_on o class checked rnd
