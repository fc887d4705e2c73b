-- ===== src/App/Handle/Relaxed.antt =====
-- When a simulation is sent on with less than it asked for, and where a released wait goes.
use algod_loadb_mesh.Base.{
  ℕ, ◌<◌, ◌≡◌, sym, ap, ◌∙◌, ◌⊎◌, inl, inr, Bool, true, false, not, ◌&&◌, Option, some, List, [],
  ◌∷◌, arith, ltb, Bool-cases, keep, Among, Float, IsOrdered,
}
use algod_loadb_mesh.App.Handle.{past_round, released_wait}
use algod_loadb_mesh.App.Router.{RouterOptions, Snapshot, sel}
use algod_loadb_mesh.Domain.Eligible.{could_serve}
use algod_loadb_mesh.Domain.Request.{RequestClass}
use algod_loadb_mesh.Domain.Select.{Selection}
use algod_loadb_mesh.Domain.Select.Choice.{InRange}
use algod_loadb_mesh.Domain.Select.Promise.{select_sound}
use algod_loadb_mesh.Domain.Upstream.{is_external, Upstream}

module _ {R : Type 0} ⦃f : Float R⦄ (o : RouterOptions R) where
  -- The class that a request is relaxed to, and what was given up on the way there.
  abbrev pub IsGivenUp :
      List (Upstream R) → RequestClass → List RequestClass → RequestClass → Type 0
  IsGivenUp cands prev [] rc = ⊥
  IsGivenUp cands prev (c ∷ cs) rc =
      (could_serve cands prev ≡ false) × ((rc ≡ c) ⊎ IsGivenUp cands c cs rc)

  keep-Among :
      {A : Type 0} (p : A → Bool) (x : A) (xs : List A)
      → Among x (keep p xs)
      → Among x xs × (p x ≡ true)
  keep-Among p x [] m = elim m [ ]
  keep-Among p x (y ∷ ys) m = elim (Bool-cases (p y)) [
    | inr k ↦ let (a, b) = keep-Among p x ys (rw k at m) in (inr a, b)
    | inl k ↦ elim (rw k at m) [
      | inl e ↦ (inl e, ap p e ∙ k)
      | inr q ↦ let (a, b) = keep-Among p x ys q in (inr a, b)
    ]
  ]

  -- A wait that is released goes to a node of the mesh that is past the round waited for.
  pub released_wait_past :
      (ordered : IsOrdered f) (class : RequestClass) (after : ℕ) (t : Snapshot R)
      (rnd : Option (ℕ → ℕ → ℕ)) (fair : InRange rnd) (s : Selection R)
      → released_wait o class after t rnd ≡ some s
      → (after < s.chosen.last_round) × (is_external s.chosen.kind ≡ false)
  unfolding released_wait sel
  released_wait_past ordered class after t rnd fair s e =
      let (v, m, h, p) =
        (select_sound o.mode (past_round o after t.cands) class t.best o.sync_tolerance o.weights
          rnd ordered fair s e).0 in
      let (a, b) =
        keep-Among (λ u. not (is_external u.kind) && ltb after u.last_round) v t.cands m in
      let kind = ap (λ (y : Upstream R). y.kind) p in
      let round = ap (λ (y : Upstream R). y.last_round) p in
      let past : after < v.last_round = ground (arith, b) in
      let mesh : is_external v.kind ≡ false = ground (arith, b) in
      (rw (sym round) at past, rw kind mesh)
