-- ===== src/App/Router/Demand.antt =====
-- When the router turns to the externals.
use algod_loadb_mesh.Base.{
  ℕ, ◌≡◌, refl, sym, ◌∙◌, inl, inr, true, false, false≢true, Option, some, Option-cases, Among,
  Among-All, Float,
}
use algod_loadb_mesh.App.Router.{RouterOptions, Snapshot, sel, pick_upstream}
use algod_loadb_mesh.Domain.Eligible.{eligible}
use algod_loadb_mesh.Domain.Request.{RequestClass}
use algod_loadb_mesh.Domain.Select.{Selection, select}
use algod_loadb_mesh.Domain.Select.Promise.{select-none}
use algod_loadb_mesh.Domain.Upstream.{Upstream}

module _ {R : Type 0} ⦃f : Float R⦄ (o : RouterOptions R) (class : RequestClass) (s : Snapshot R)
    (rnd later : Option (ℕ → ℕ → ℕ)) where
  -- A request that some candidate of the snapshot can serve goes where the snapshot's own selection
  -- says, whatever a check of the externals has found.
  pub pick_on_demand :
      (checked : Option (Snapshot R)) (u : Upstream R)
      → Among u s.cands
      → eligible u class s.best o.sync_tolerance ≡ true
      → (x : Selection R) × (select o.mode s.cands class s.best o.sync_tolerance o.weights rnd
          ≡ some x)
        × (pick_upstream o class s checked rnd later ≡ (some x, s))
  unfolding pick_upstream sel
  pick_on_demand checked u m h =
      elim (Option-cases (select o.mode s.cands class s.best o.sync_tolerance o.weights rnd)) [
        | inl e ↦
            let all_bad =
              (select-none o.mode s.cands class s.best o.sync_tolerance o.weights rnd).0 e in
            let bad =
              Among-All (λ v. eligible v class s.best o.sync_tolerance ≡ false) u s.cands all_bad
                m in
            absurd (false≢true (sym bad ∙ h))
        | inr (x, e) ↦ (x, e, rw e refl)
      ]
