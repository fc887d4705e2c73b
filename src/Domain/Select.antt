-- ===== src/Domain/Select.antt =====
-- The choice of an upstream: internal/domain/select.go. Tiers are taken small enough that the sum
-- with half of MaxInt32 stays within an int.
pub mod Order
pub mod Choice
pub mod Picked
pub mod Promise
use algod_loadb_mesh.Base.{
  ℕ, zero, suc, ◌-◌, Bool, true, false, not, ◌&&◌, ◌||◌, Option, none, some, List, [], ◌∷◌, ◌++◌,
  ltb, ◌==◌, if◌then◌else◌, differ, Bytes, codes, eqb, ltb_bytes, length, get_or, take, drop, any,
  ℤ, pos, negsuc, ◌+ℤ◌, ltb_ℤ, eqb_ℤ, sort_by, lookup, Float,
}
use algod_loadb_mesh.Domain.Classify.{is}
use algod_loadb_mesh.Domain.Eligible.{state_oldest, eligible}
use algod_loadb_mesh.Domain.Request.{is_block, RequestClass, stat_key}
use algod_loadb_mesh.Domain.Upstream.{
  UpstreamKind, local, peer, external, is_local, is_external, Upstream,
}

-- `Mode`, as `ParseMode` leaves it.
pub data Mode : Type 0 where
  fallback loadbalancer : Mode

abbrev pub is_fallback : Mode → Bool
is_fallback fallback = true
is_fallback loadbalancer = false

-- `ParseMode`: the empty text is the default.
unfoldable parse_mode : Bytes → Option Mode
parse_mode s =
    if eqb s (codes "fallback")
    then some fallback
    else if eqb s (codes "loadbalancer")
    then some loadbalancer
    else if eqb s []
    then some fallback
    else none

pub record Weights (R : Type 0) : Type 0 where
  pub error_penalty_ms : R
  pub lag_penalty_ms : R
  pub inflight_ms : R
  pub local_bonus_ms : R
  pub unknown_lat_ms : R
  pub external_penalty : R

pub record Selection (R : Type 0) : Type 0 where
  pub chosen : Upstream R
  pub alternates : List (Upstream R)
  pub tier : ℤ

abbrev or_else {ℓ} : {A : Type ℓ} → Option A → A → A
or_else none a = a
or_else (some b) a = b

abbrev min_int32 : ℤ
min_int32 = negsuc 2147483647

abbrev half_max_int32 : ℤ
half_max_int32 = pos 1073741823

abbrev tier_of : Mode → UpstreamKind → ℤ → ℤ
tier_of mode local tier = if is_fallback mode then min_int32 else tier
tier_of mode external tier = half_max_int32 +ℤ tier
tier_of mode peer tier = tier

abbrev at_oldest : Option ℕ → ℕ → Bool
at_oldest none r = false
at_oldest (some oldest) r = r == oldest

abbrev pub pool_or_all : List ℕ → List ℕ → List ℕ
pool_or_all [] every = every
pool_or_all (i ∷ is) every = i ∷ is

module _ {R : Type 0} where
  unfoldable pub effective_tier : Mode → Upstream R → ℤ
  effective_tier mode u = tier_of mode u.kind u.tier

  abbrev edge_at : Upstream R → RequestClass → Option ℕ → Bool
  edge_at u c none = false
  edge_at u c (some r) =
      if is_block c.round_window || u.caps.time_travel || is_local u.kind
      then false
      else if ltb u.last_round u.caps.max_acct_lookback
      then false
      else at_oldest (state_oldest u c.round_window) r

  unfoldable pub state_window_edge : Upstream R → RequestClass → Bool
  state_window_edge u c = edge_at u c c.round

  module _ ⦃f : Float R⦄ where
    abbrev default_weights : Weights R
    default_weights = record {
      error_penalty_ms = f.of_nat 2000;
      lag_penalty_ms = f.of_nat 50;
      inflight_ms = f.of_nat 5;
      local_bonus_ms = f.of_nat 2;
      unknown_lat_ms = f.of_nat 20;
      external_penalty = f.of_nat 100;
    }

    abbrev is_zero_weights : Weights R → Bool
    is_zero_weights w =
        f.eq w.error_penalty_ms (f.of_nat 0)
        && f.eq w.lag_penalty_ms (f.of_nat 0)
        && f.eq w.inflight_ms (f.of_nat 0)
        && f.eq w.local_bonus_ms (f.of_nat 0)
        && f.eq w.unknown_lat_ms (f.of_nat 0)
        && f.eq w.external_penalty (f.of_nat 0)

    -- The latency of the class, else of the default bucket, else the one assumed.
    abbrev pub latency : Upstream R → RequestClass → Weights R → R
    latency u c w =
        or_else (lookup (stat_key c) u.stats.latency_ms)
          (or_else (lookup (codes "default") u.stats.latency_ms) w.unknown_lat_ms)

    -- The sum of `Score` under weights that are not all zero.
    unfoldable pub weigh : Upstream R → RequestClass → ℕ → Weights R → R
    weigh u c best w =
        let s₀ = latency u c w in
        let s₁ = f.add s₀ (f.mul w.error_penalty_ms u.stats.error_rate) in
        let s₂ =
          if ltb u.last_round best
          then f.add s₁ (f.mul w.lag_penalty_ms (f.of_nat (best - u.last_round)))
          else s₁ in
        let s₃ = f.add s₂ (f.mul w.inflight_ms (f.of_nat u.stats.inflight)) in
        let s₄ = if is_local u.kind then f.sub s₃ w.local_bonus_ms else s₃ in
        if is_external u.kind then f.add s₄ w.external_penalty else s₄

    unfoldable pub score : Upstream R → RequestClass → ℕ → Weights R → R
    score u c best w = weigh u c best (if is_zero_weights w then default_weights else w)

    -- The first loop of `Select`: the eligible upstreams with their scores.
    unfoldable pub scored : List (Upstream R) → RequestClass → ℕ → ℕ → Weights R → List (Upstream R)
    scored [] c best tol w = []
    scored (u ∷ us) c best tol w =
        let rest = scored us c best tol w in
        if eligible u c best tol then record u { score = score u c best w } ∷ rest else rest

    abbrev pub has_time_travel : List (Upstream R) → Bool
    has_time_travel = any (λ u. u.caps.time_travel)

    -- The order of the candidates: effective tier, then off the edge, then score, then id.
    unfoldable pub before : Mode → RequestClass → Bool → Upstream R → Upstream R → Bool
    before mode c has_tt a b =
        if not (eqb_ℤ (effective_tier mode a) (effective_tier mode b))
        then ltb_ℤ (effective_tier mode a) (effective_tier mode b)
        else if has_tt && differ (state_window_edge a c) (state_window_edge b c)
        then state_window_edge b c
        else if not (f.eq a.score b.score)
        then f.lt a.score b.score
        else ltb_bytes a.id b.id

    -- How many of the sorted candidates share the first one's effective tier.
    unfoldable pub same_tier : Mode → ℤ → List (Upstream R) → ℕ
    same_tier mode top [] = 0
    same_tier mode top (u ∷ us) =
        if eqb_ℤ (effective_tier mode u) top then suc (same_tier mode top us) else 0

    -- The indices from `i` on of the first `n` elements that pass.
    unfoldable pub indices : (Upstream R → Bool) → ℕ → ℕ → List (Upstream R) → List ℕ
    indices p i zero us = []
    indices p i (suc n) [] = []
    indices p i (suc n) (u ∷ us) =
        let rest = indices p (suc i) n us in if p u then i ∷ rest else rest

    unfoldable pub pool : RequestClass → Bool → ℕ → List (Upstream R) → List ℕ
    unfolding indices
    pool c has_tt n elig =
        pool_or_all (indices (λ u. not (has_tt && state_window_edge u c)) 0 n elig)
          (indices (λ u. true) 0 n elig)

    -- Two draws of `rnd.IntN`, the first and the second, each below its argument; and the better
    -- of the two candidates. An index out of range, which would panic, reads as the first.
    unfoldable pub draw_two : (ℕ → ℕ → ℕ) → Upstream R → List (Upstream R) → List ℕ → ℕ
    draw_two rnd top rest pool =
        let a = get_or pool (rnd 0 (length pool)) 0 in
        let b = get_or pool (rnd 1 (length pool)) 0 in
        if f.lt (get_or (top ∷ rest) b top).score (get_or (top ∷ rest) a top).score then b else a

    abbrev pub drawn : Option (ℕ → ℕ → ℕ) → Upstream R → List (Upstream R) → List ℕ → ℕ
    drawn none top rest pool = 0
    drawn (some rnd) top rest pool = draw_two rnd top rest pool

    unfoldable pub choose_index :
        Mode → RequestClass → Bool → Option (ℕ → ℕ → ℕ) → Upstream R → List (Upstream R) → ℕ
    unfolding same_tier
    choose_index mode c has_tt rnd top rest =
        let n = same_tier mode (effective_tier mode top) (top ∷ rest) in
        if not (is_fallback mode) && ltb 1 n
        then drawn rnd top rest (pool c has_tt n (top ∷ rest))
        else 0

    -- The end of `Select`, on the sorted candidates.
    unfoldable pub pick :
        Mode → RequestClass → Bool → Option (ℕ → ℕ → ℕ) → List (Upstream R) → Option (Selection R)
    pick mode c has_tt rnd [] = none
    pick mode c has_tt rnd (top ∷ rest) =
        let elig = top ∷ rest in
        let idx = choose_index mode c has_tt rnd top rest in
        let chosen = get_or elig idx top in
        some (record {
          chosen = chosen;
          alternates = take idx elig ++ drop (suc idx) elig;
          tier = chosen.tier;
        })

    unfoldable pub select :
        Mode
        → List (Upstream R)
        → RequestClass
        → ℕ
        → ℕ
        → Weights R
        → Option (ℕ → ℕ → ℕ)
        → Option (Selection R)
    select mode cands c best tol w rnd =
        let elig = scored cands c best tol w in
        let has_tt = has_time_travel elig in
        pick mode c has_tt rnd (sort_by (before mode c has_tt) elig)
