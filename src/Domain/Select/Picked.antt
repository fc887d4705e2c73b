-- ===== src/Domain/Select/Picked.antt =====
-- What `Select` promises: an eligible upstream of the best tier, with the other eligible ones as
-- alternates, and the first of the order in fallback mode.
use algod_loadb_mesh.Base.{
  ℕ, suc, ◌≡◌, refl, sym, ap, subst, inl, inr, Bool, true, false, Option, some, some-injective,
  Perm, List, [], ◌∷◌, ◌++◌, map, arith, Bool-cases, get_or, take, drop, keep, All, Among,
  All_of_Among, Among-All, get_or-Among, get_or-perm, ◌≤ℤ◌, eqb_ℤ, IsSorted, Float, IsOrdered,
}
use algod_loadb_mesh.Domain.Eligible.{eligible}
use algod_loadb_mesh.Domain.Request.{RequestClass}
use algod_loadb_mesh.Domain.Select.{
  Mode, is_fallback, Weights, Selection, effective_tier, state_window_edge, score, scored, before,
  choose_index, pick,
}
use algod_loadb_mesh.Domain.Select.Choice.{InRange, IsChoice, choose_index-IsChoice}
use algod_loadb_mesh.Domain.Select.Order.{before-IsWeakOrder}
use algod_loadb_mesh.Domain.Upstream.{Upstream}

module _ {R : Type 0} ⦃f : Float R⦄ (c : RequestClass) (best tol : ℕ) (w : Weights R) where
  -- `v` is the candidate `u` with its score filled in.
  abbrev IsScored : Upstream R → Upstream R → Type 0
  IsScored u v = v ≡ record u { score = score u c best w }

  -- The candidates that remain are the eligible ones.
  abbrev pub IsCandidate : List (Upstream R) → Upstream R → Type 0
  IsCandidate cands v =
      (u : Upstream R) × Among u cands × (eligible u c best tol ≡ true) × IsScored u v

  IsCandidate-cons :
      (u v : Upstream R) (us : List (Upstream R)) → IsCandidate us v → IsCandidate (u ∷ us) v
  IsCandidate-cons u v us (x, m, e, s) = (x, inr m, e, s)

  pub scored_sound :
      (us : List (Upstream R)) (v : Upstream R)
      → Among v (scored us c best tol w)
      → IsCandidate us v
  unfolding scored
  scored_sound [] v m = elim m [ ]
  scored_sound (u ∷ us) v m = elim (Bool-cases (eligible u c best tol)) [
    | inl e ↦ elim (rw e at m) [
      | inl p ↦ (u, inl refl, e, p)
      | inr q ↦ IsCandidate-cons u v us (scored_sound us v q)
    ]
    | inr e ↦ IsCandidate-cons u v us (scored_sound us v (rw e at m))
  ]

  pub scored_complete :
      (us : List (Upstream R)) (u : Upstream R)
      → Among u us
      → eligible u c best tol ≡ true
      → Among (record u { score = score u c best w }) (scored us c best tol w)
  unfolding scored
  scored_complete [] u m e = elim m [ ]
  scored_complete (x ∷ us) u (inl p) e =
      subst {A = Upstream R}
        (λ z. Among (record z { score = score z c best w }) (scored (x ∷ us) c best tol w)) (sym p)
        (here (subst (λ z. eligible z c best tol ≡ true) p e))
    where
      here :
          eligible x c best tol ≡ true
          → Among (record x { score = score x c best w }) (scored (x ∷ us) c best tol w)
      here e = rw e (inl refl)
  scored_complete (x ∷ us) u (inr m) e = elim (Bool-cases (eligible x c best tol)) [
    | inl e' ↦ rw e' (inr (scored_complete us u m e))
    | inr e' ↦ rw e' (scored_complete us u m e)
  ]

  pub scored-keep :
      (us : List (Upstream R))
      → scored us c best tol w
        ≡ map {A = Upstream R} {B = Upstream R}
            (λ u. record u { score = score u c best w })
            (keep (λ u. eligible u c best tol) us)
  unfolding scored
  scored-keep [] = refl
  scored-keep (u ∷ us) = elim (Bool-cases (eligible u c best tol)) [
    | inl e ↦
        let v : Upstream R = record u { score = score u c best w } in
        rw e (ap (λ l. v ∷ l) (scored-keep us))
    | inr e ↦ rw e (scored-keep us)
  ]

  pub scored-nil :
      (us : List (Upstream R))
      → scored us c best tol w ≡ []
      → All (λ u. eligible u c best tol ≡ false) us
  unfolding scored
  scored-nil [] h = tt
  scored-nil (u ∷ us) h = (ground arith, scored-nil us (ground arith))

  pub nil-scored :
      (us : List (Upstream R))
      → All (λ u. eligible u c best tol ≡ false) us
      → scored us c best tol w ≡ []
  unfolding scored
  nil-scored [] h = refl
  nil-scored (u ∷ us) h = rw (h.0, nil-scored us h.1)

module _ {R : Type 0} ⦃f : Float R⦄ (o : IsOrdered f) (mode : Mode) (c : RequestClass) where
  -- What the end of `Select` makes of the sorted candidates.
  pub record IsPicked (has_tt : Bool) (elig : List (Upstream R)) (s : Selection R) : Type 0 where
    pub arranged : Perm (s.chosen ∷ s.alternates) elig
    pub member : Among s.chosen elig
    pub tier_eq : s.tier ≡ s.chosen.tier
    pub best_tier : All (λ v. effective_tier mode s.chosen ≤ℤ effective_tier mode v) elig
    pub off_edge :
        has_tt ≡ true
        → state_window_edge s.chosen c ≡ true
        → All
            (λ v.
              eqb_ℤ (effective_tier mode v) (effective_tier mode s.chosen) ≡ true
              → state_window_edge v c ≡ true)
            elig
    pub least : is_fallback mode ≡ true → All (λ v. before mode c has_tt v s.chosen ≡ false) elig

  module _ (has_tt : Bool) (top : Upstream R) (rest : List (Upstream R))
      (rnd : Option (ℕ → ℕ → ℕ)) where
    abbrev idx : ℕ
    idx = choose_index mode c has_tt rnd top rest

    abbrev chosen : Upstream R
    chosen = get_or (top ∷ rest) idx top

    tier-le :
        (v x : Upstream R)
        → before mode c has_tt v top ≡ false
        → eqb_ℤ (effective_tier mode x) (effective_tier mode top) ≡ true
        → effective_tier mode x ≤ℤ effective_tier mode v
    unfolding before
    tier-le v x h e = ground arith

    edge-spreads :
        (v : Upstream R)
        → before mode c has_tt v top ≡ false
        → has_tt ≡ true
        → state_window_edge top c ≡ true
        → eqb_ℤ (effective_tier mode v) (effective_tier mode top) ≡ true
        → state_window_edge v c ≡ true
    unfolding before
    edge-spreads v h t e k = ground arith

    before_irrefl : before mode c has_tt top top ≡ false
    before_irrefl = elim (Bool-cases (before mode c has_tt top top)) [
      | inl e ↦ (before-IsWeakOrder o mode c has_tt).asymm top top e
      | inr e ↦ e
    ]

    picked : Selection R
    picked = record {
      chosen = chosen;
      alternates = take idx (top ∷ rest) ++ drop (suc idx) (top ∷ rest);
      tier = chosen.tier;
    }

    module _ (choice : IsChoice mode c has_tt top rest idx)
        (sorted : IsSorted (before mode c has_tt) (top ∷ rest)) where
      not_before : (v : Upstream R) → Among v (top ∷ rest) → before mode c has_tt v top ≡ false
      not_before v (inl p) = rw p before_irrefl
      not_before v (inr m) = Among-All (λ v. before mode c has_tt v top ≡ false) v rest sorted.0 m

      picked_edge :
          has_tt ≡ true
          → state_window_edge chosen c ≡ true
          → (v : Upstream R) → Among v (top ∷ rest)
          → eqb_ℤ (effective_tier mode v) (effective_tier mode chosen) ≡ true
          → state_window_edge v c ≡ true
      picked_edge t e v m k =
          let top_edge : state_window_edge top c ≡ true = ground (arith, choice.2) in
          edge-spreads v (not_before v m) t top_edge (ground (arith, choice.1))

      picked_least :
          is_fallback mode ≡ true
          → (v : Upstream R) → Among v (top ∷ rest)
          → before mode c has_tt v chosen ≡ false
      unfolding choose_index
      picked_least e v m = rw e (not_before v m)

      picked-IsPicked : IsPicked has_tt (top ∷ rest) picked
      unfolding picked
      picked-IsPicked = record {
        arranged = get_or-perm (top ∷ rest) idx top choice.0;
        member = get_or-Among (top ∷ rest) idx top choice.0;
        tier_eq = refl;
        best_tier = All_of_Among _ (top ∷ rest) (λ v m. tier-le v chosen (not_before v m) choice.1);
        off_edge = λ t e. All_of_Among _ (top ∷ rest) (λ v m k. picked_edge t e v m k);
        least = λ e. All_of_Among _ (top ∷ rest) (λ v m. picked_least e v m);
      }

  pub pick-IsPicked :
      (has_tt : Bool) (elig : List (Upstream R)) (rnd : Option (ℕ → ℕ → ℕ))
      → InRange rnd
      → IsSorted (before mode c has_tt) elig
      → (s : Selection R) → pick mode c has_tt rnd elig ≡ some s
      → IsPicked has_tt elig s
  unfolding pick picked
  pick-IsPicked has_tt [] rnd fair sorted s e = cc
  pick-IsPicked has_tt (top ∷ rest) rnd fair sorted s e =
      subst (IsPicked has_tt (top ∷ rest)) (some-injective _ s e) (
        picked-IsPicked has_tt top rest rnd (choose_index-IsChoice mode c has_tt top rest rnd fair)
          sorted)
