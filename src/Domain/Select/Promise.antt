-- ===== src/Domain/Select/Promise.antt =====
-- The promises of `Select`, from its arguments to its result.
use mathlib.Core.List.Perm
use algod_loadb_mesh.Base.{
  ℕ, ◌≡◌, refl, ap, subst, ◌≢◌, ◌↔◌, inl, inr, Bool, true, false, Option, none, some, Perm, List,
  [], ◌∷◌, map, arith, Bool-cases, keep, any, All, Among, Among-All, pos, ◌≤ℤ◌, eqb_ℤ, insert_by,
  sort_by, sort_by-perm, sort_by-IsSorted, Among-sort_by, Float, IsOrdered,
}
use algod_loadb_mesh.Domain.Eligible.{state_oldest, eligible}
use algod_loadb_mesh.Domain.Request.{RequestClass}
use algod_loadb_mesh.Domain.Select.{
  Mode, is_fallback, Weights, Selection, effective_tier, state_window_edge, score, scored,
  has_time_travel, before, pick, select,
}
use algod_loadb_mesh.Domain.Select.Choice.{InRange}
use algod_loadb_mesh.Domain.Select.Order.{before-IsWeakOrder}
use algod_loadb_mesh.Domain.Select.Picked.{
  IsCandidate, scored_sound, scored_complete, scored-keep, scored-nil, nil-scored, IsPicked,
  pick-IsPicked,
}
use algod_loadb_mesh.Domain.Upstream.{is_local, Upstream}

any-Among :
    {A : Type 0} (p : A → Bool) (x : A) (xs : List A) → Among x xs → p x ≡ true → any p xs ≡ true
any-Among p x [] m h = elim m [ ]
any-Among p x (y ∷ ys) (inl e) h = let e' = ap p e in ground arith
any-Among p x (y ∷ ys) (inr m) h = let ih = any-Among p x ys m h in ground arith

insert_by-ne-nil :
    {A : Type 0} (less : A → A → Bool) (x : A) (ys : List A) → insert_by less x ys ≢ []
unfolding insert_by
insert_by-ne-nil less x [] e = cc
insert_by-ne-nil less x (y ∷ ys) e = ground arith

sort_by-nil : {A : Type 0} (less : A → A → Bool) (xs : List A) → sort_by less xs ≡ [] → xs ≡ []
unfolding sort_by
sort_by-nil less [] e = refl
sort_by-nil less (x ∷ xs) e = absurd (insert_by-ne-nil less x (sort_by less xs) e)

pick-none :
    {R : Type 0} ⦃f : Float R⦄ (mode : Mode) (c : RequestClass) (t : Bool)
    (rnd : Option (ℕ → ℕ → ℕ)) (l : List (Upstream R))
    → pick mode c t rnd l ≡ none
    → l ≡ []
unfolding pick
pick-none mode c t rnd [] e = refl
pick-none mode c t rnd (top ∷ rest) e = cc

module _ {R : Type 0} ⦃f : Float R⦄ (mode : Mode) (cands : List (Upstream R)) (c : RequestClass)
    (best tol : ℕ) (w : Weights R) (rnd : Option (ℕ → ℕ → ℕ)) where
  abbrev elig : List (Upstream R)
  elig = scored cands c best tol w

  abbrev has_tt : Bool
  has_tt = has_time_travel elig

  abbrev sorted : List (Upstream R)
  sorted = sort_by (before mode c has_tt) elig

  -- `Select` fails exactly when no candidate is eligible.
  pub select-none :
      (select mode cands c best tol w rnd ≡ none) ↔ All (λ u. eligible u c best tol ≡ false) cands
  unfolding select pick sort_by
  select-none = (
    λ e. scored-nil c best tol w cands (sort_by-nil _ elig (pick-none mode c has_tt rnd sorted e)),
    λ h. rw (nil-scored c best tol w cands h),
  )

  module _ (o : IsOrdered f) (fair : InRange rnd) (s : Selection R)
      (e : select mode cands c best tol w rnd ≡ some s) where
    picks : IsPicked o mode c has_tt sorted s
    unfolding select
    picks =
        pick-IsPicked o mode c has_tt sorted rnd fair
          (sort_by-IsSorted (before mode c has_tt) (before-IsWeakOrder o mode c has_tt) elig) s e

    -- Every eligible candidate, with its score, is among the sorted ones.
    in_sorted :
        (u : Upstream R)
        → Among u cands
        → eligible u c best tol ≡ true
        → Among (record u { score = score u c best w }) sorted
    in_sorted u m h =
        (Among-sort_by (before mode c has_tt) _ elig).1 (scored_complete c best tol w cands u m h)

    -- The chosen upstream is an eligible candidate, and with the alternates it makes up the
    -- candidates that are eligible, each once and with its score filled in.
    pub select_sound :
        IsCandidate c best tol w cands s.chosen
        × Perm (s.chosen ∷ s.alternates) (
            map {A = Upstream R} {B = Upstream R}
              (λ u. record u { score = score u c best w })
              (keep (λ u. eligible u c best tol) cands))
    select_sound = (
      scored_sound c best tol w cands s.chosen
          ((Among-sort_by (before mode c has_tt) s.chosen elig).0 picks.member),
      subst (Perm (s.chosen ∷ s.alternates)) (scored-keep c best tol w cands)
          (Perm.trans picks.arranged (sort_by-perm (before mode c has_tt) elig)),
    )

    -- No eligible candidate is in a tier ahead of the chosen one's.
    pub select-best_tier :
        (u : Upstream R)
        → Among u cands
        → eligible u c best tol ≡ true
        → effective_tier mode s.chosen ≤ℤ effective_tier mode u
    unfolding effective_tier
    select-best_tier u m h =
        Among-All (λ v. effective_tier mode s.chosen ≤ℤ effective_tier mode v) _ sorted
          picks.best_tier (in_sorted u m h)

    -- With an eligible time-travel node, a chosen node on the edge of its state window has no
    -- eligible rival of its tier off the edge.
    pub select-off_edge :
        (t u : Upstream R)
        → Among t cands
        → eligible t c best tol ≡ true
        → t.caps.time_travel ≡ true
        → Among u cands
        → eligible u c best tol ≡ true
        → eqb_ℤ (effective_tier mode u) (effective_tier mode s.chosen) ≡ true
        → state_window_edge s.chosen c ≡ true
        → state_window_edge u c ≡ true
    unfolding effective_tier state_window_edge state_oldest
    select-off_edge t u tm th tt_on um uh same edge =
        Among-All
          (λ v.
            eqb_ℤ (effective_tier mode v) (effective_tier mode s.chosen) ≡ true
            → state_window_edge v c ≡ true)
          _ sorted
          (picks.off_edge
            (any-Among (λ v. v.caps.time_travel) _ elig (scored_complete c best tol w cands t tm th)
              tt_on)
            edge)
          (in_sorted u um uh) same

    -- In fallback mode the choice is the first of the order: no eligible candidate comes before.
    pub select-least :
        is_fallback mode ≡ true
        → (u : Upstream R) → Among u cands
        → eligible u c best tol ≡ true
        → before mode c
            (has_time_travel (scored cands c best tol w))
            (record u { score = score u c best w })
            s.chosen
          ≡ false
    select-least fb u m h =
        Among-All (λ v. before mode c has_tt v s.chosen ≡ false) _ sorted (picks.least fb)
          (in_sorted u m h)

    -- In fallback mode an eligible local node is chosen before any peer or external, whose tiers
    -- are not negative.
    pub select_local_first :
        is_fallback mode ≡ true
        → ((v : Upstream R) → Among v cands → is_local v.kind ≡ false → pos 0 ≤ℤ v.tier)
        → (u : Upstream R) → Among u cands
        → eligible u c best tol ≡ true
        → is_local u.kind ≡ true
        → is_local s.chosen.kind ≡ true
    unfolding effective_tier
    select_local_first fb ranks u m h home =
        let (v, vm, vh, p) = select_sound.0 in
        let le = select-best_tier u m h in
        let kind_eq : s.chosen.kind ≡ v.kind = ap (λ (x : Upstream R). x.kind) p in
        let tier_eq : s.chosen.tier ≡ v.tier = ap (λ (x : Upstream R). x.tier) p in
        elim (Bool-cases (is_local v.kind)) [
          | inl e ↦ rw kind_eq e
          | inr e ↦ let rank = ranks v vm e in ground (arith, le)
        ]
