-- ===== src/Domain/Eligible/Whole.antt =====
-- What is judged over the whole fleet: its best round, and whether any node could serve a class.
use algod_loadb_mesh.Base.{
  ℕ, ◌≤◌, ◌≡◌, refl, sym, subst, ◌⊎◌, inl, inr, Bool, true, not, ◌&&◌, Option, none, some, List, [],
  ◌∷◌, arith, ltb, Bool-cases, All, Among, Float,
}
use algod_loadb_mesh.Domain.Eligible.{
  in_sync, state_oldest, state_window_covers, window_covers, round_eligible, eligible, best_from,
  best_round, recovered, could_serve,
}
use algod_loadb_mesh.Domain.Request.{RequestClass}
use algod_loadb_mesh.Domain.Upstream.{reachable, Upstream}

module _ {R : Type 0} where
  -- An upstream that counts towards the best round.
  abbrev pub counts : Upstream R → Bool
  counts u = reachable u.health && not u.excluded

  -- `b` is `start`, or the last round of one of the upstreams that count.
  abbrev pub IsReachedBy : ℕ → List (Upstream R) → ℕ → Type 0
  IsReachedBy start us b =
      (b ≡ start) ⊎ ((u : Upstream R) × Among u us × (counts u ≡ true) × (u.last_round ≡ b))

  best_from-le : (start : ℕ) (us : List (Upstream R)) → start ≤ best_from start us
  unfolding best_from
  best_from-le start [] = omega arith
  best_from-le start (u ∷ us) = elim (Bool-cases (counts u && ltb start u.last_round)) [
    | inl e ↦ let ih = best_from-le u.last_round us in ground (arith, ih)
    | inr e ↦ let ih = best_from-le start us in ground (arith, ih)
  ]

  -- No upstream that counts is beyond round `b`.
  abbrev pub AllBelow : ℕ → List (Upstream R) → Type 0
  AllBelow b = All (λ u. counts u ≡ true → u.last_round ≤ b)

  AllBelow-cons :
      (u : Upstream R) (us : List (Upstream R)) {a b : ℕ}
      → a ≡ b
      → (counts u ≡ true → u.last_round ≤ a)
      → AllBelow a us
      → AllBelow b (u ∷ us)
  AllBelow-cons u us e h t = subst (λ b. AllBelow b (u ∷ us)) e (h, t)

  best_from-greatest : (start : ℕ) (us : List (Upstream R)) → AllBelow (best_from start us) us
  unfolding best_from
  best_from-greatest start [] = tt
  best_from-greatest start (u ∷ us) = elim (Bool-cases (counts u && ltb start u.last_round)) [
    | inl e ↦
        let same : best_from start (u ∷ us) ≡ best_from u.last_round us = rw e refl in
        let le = best_from-le u.last_round us in
        AllBelow-cons u us (sym same) (λ c. le) (best_from-greatest u.last_round us)
    | inr e ↦
        let same : best_from start (u ∷ us) ≡ best_from start us = rw e refl in
        let le = best_from-le start us in
        AllBelow-cons u us (sym same) (λ c. ground (arith, le)) (best_from-greatest start us)
  ]

  best_from-IsReachedBy :
      (start : ℕ) (us : List (Upstream R)) → IsReachedBy start us (best_from start us)
  unfolding best_from
  best_from-IsReachedBy start [] = inl refl
  best_from-IsReachedBy start (u ∷ us) = elim (Bool-cases (counts u && ltb start u.last_round)) [
    | inl e ↦ rw e (elim (best_from-IsReachedBy u.last_round us) [
      | inl same ↦ inr (u, inl refl, ground arith, sym same)
      | inr (v, m, c, r) ↦ inr (v, inr m, c, r)
    ])
    | inr e ↦ rw e (elim (best_from-IsReachedBy start us) [
      | inl same ↦ inl same
      | inr (v, m, c, r) ↦ inr (v, inr m, c, r)
    ])
  ]

  -- The best round is the greatest last round of the upstreams that are reachable and not excluded,
  -- or 0 if there are none.
  pub best_round_greatest :
      (us : List (Upstream R)) → AllBelow (best_round us) us × IsReachedBy 0 us (best_round us)
  unfolding best_round
  best_round_greatest us = (best_from-greatest 0 us, best_from-IsReachedBy 0 us)

module _ {R : Type 0} ⦃f : Float R⦄ where
  same_window :
      (u : Upstream R) (c : RequestClass) (r : ℕ)
      → window_covers (recovered u) c r ≡ window_covers u c r
  unfolding window_covers state_window_covers state_oldest
  same_window u c r = refl

  in_sync-recovered : (u : Upstream R) (best : ℕ) → in_sync (recovered u) best 0 ≡ true
  unfolding in_sync
  in_sync-recovered u best = refl

  round_recovers :
      (u : Upstream R) (c : RequestClass) (best tol : ℕ) (o : Option ℕ)
      → round_eligible u c best tol o ≡ true
      → round_eligible (recovered u) c u.last_round 0 o ≡ true
  unfolding round_eligible
  round_recovers u c best tol none h = let s = in_sync-recovered u u.last_round in ground (arith, s)
  round_recovers u c best tol (some r) h =
      let s = in_sync-recovered u u.last_round in let w = same_window u c r in ground (arith, s, w)

  recovers :
      (u : Upstream R) (c : RequestClass) (best tol : ℕ)
      → eligible u c best tol ≡ true
      → eligible (recovered u) c u.last_round 0 ≡ true
  unfolding eligible reachable
  recovers u c best tol h = let r = round_recovers u c best tol c.round in ground (arith, r)

  -- A fleet that has an eligible upstream for a class could serve it, so that a request is relaxed
  -- for its class only when no upstream is eligible.
  pub could_serve-eligible :
      (us : List (Upstream R)) (u : Upstream R) (c : RequestClass) (best tol : ℕ)
      → Among u us
      → eligible u c best tol ≡ true
      → could_serve us c ≡ true
  unfolding could_serve
  could_serve-eligible [] u c best tol m h = elim m [ ]
  could_serve-eligible (v ∷ us) u c best tol (inl e) h =
      let r = recovers u c best tol h in
      let r' : eligible (recovered v) c v.last_round 0 ≡ true = rw e at r in rw r' refl
  could_serve-eligible (v ∷ us) u c best tol (inr m) h =
      let ih = could_serve-eligible us u c best tol m h in ground (arith, ih)
