-- ===== src/Domain/Eligible/Simulate.antt =====
-- The rounds of a simulate request and the nodes that are eligible for it.
use algod_loadb_mesh.Base.{
  ℕ, ◌-◌, ◌≤◌, ◌<◌, ◌≡◌, ◌⊎◌, inl, inr, true, false, none, some, List, [], ◌∷◌, arith, ltb, ◌==◌,
  if◌then◌else◌, Bool-cases, All, word,
}
use algod_loadb_mesh.Domain.Eligible.{eligible}
use algod_loadb_mesh.Domain.Eligible.Laws.{eligible_iff}
use algod_loadb_mesh.Domain.Eligible.Spec.{IsCurrent, HoldsRound}
use algod_loadb_mesh.Domain.Request.{
  SimulateNeeds, RequestClass, SimulateBody, base_needs, Span, span_of, empty_span, set_round,
  apply_span, apply_simulate,
}
use algod_loadb_mesh.Domain.Request.Rounds.{empty-Bounds, Covers, span_of-Covers}
use algod_loadb_mesh.Domain.Upstream.{Upstream}

pub rounds_named : SimulateBody → List ℕ
rounds_named b = if b.round == 0 then b.rounds else b.round ∷ []

All-map {ℓ} :
    {A : Type ℓ} {P Q : A → Type 0} (xs : List A) → ((x : A) → P x → Q x) → All P xs → All Q xs
All-map [] f h = tt
All-map (x ∷ xs) f h = (f x h.0, All-map xs f h.1)

module _ {R : Type 0} where
  -- The first round at which the node simulates: from its history at any round, else within its
  -- account-state lookback, or its block window when the lookback is unknown.
  abbrev simulate_start : Upstream R → ℕ
  simulate_start u =
      if u.caps.time_travel
      then 0
      else if u.caps.max_acct_lookback == 0
      then u.caps.oldest_round
      else u.last_round - u.caps.max_acct_lookback

  -- The node answers round `r` of a simulation: 0 stands for the latest round.
  abbrev pub Simulates : Upstream R → ℕ → ℕ → ℕ → Type 0
  Simulates u best tol r =
      ((r ≡ 0) × IsCurrent u best tol) ⊎ ((0 < r) × (simulate_start u ≤ r) × (r ≤ u.last_round))

module _ {R : Type 0} (u : Upstream R) (c : RequestClass) (best tol : ℕ) where
  spanned :
      (s : Span) (n : SimulateNeeds) (r : ℕ)
      → Covers s r
      → let d = record (set_round c s.lo) {
        round_high = s.hi;
        sim_needs = some (record n { latest = s.latest; rounds_span = true });
      } in
        HoldsRound u d best tol d.round → Simulates u best tol r
  spanned s n r (inl z) h = inl (z.0, h.3 z.1)
  spanned s n r (inr z) h = inr (z.0, ground arith, omega arith)

  span-Simulates :
      (n : SimulateNeeds) (s : Span)
      → c.round ≡ none
      → c.local_only ≡ false
      → HoldsRound u (apply_span c n s) best tol (apply_span c n s).round
      → (r : ℕ) → Covers s r
      → Simulates u best tol r
  unfolding apply_span
  span-Simulates n s unset away h r k = elim (Bool-cases (ltb 0 s.hi)) [
    | inl e ↦ let h' = (rw (e, apply_span) at h) in spanned s n r k h'
    | inr e ↦ let h' = (rw (e, apply_span, unset) at h) in ground (arith, h' away)
  ]

  single :
      (b : SimulateBody)
      → (b.round == 0) ≡ false
      → let d = record (set_round c b.round) { sim_needs = some (base_needs b) } in
        HoldsRound u d best tol d.round → Simulates u best tol b.round
  single b e h = inr (ground arith, ground arith, omega arith)

  -- A node that is eligible for a simulate request as the body asks for it, not relaxed, simulates at
  -- every round that the body names, if the class had no round before, is not for the local node alone,
  -- and the node's last round is within 64 bits.
  pub simulate_rounds_held :
      (b : SimulateBody)
      → u.last_round < word
      → c.round ≡ none
      → c.local_only ≡ false
      → eligible u (apply_simulate c b) best tol ≡ true
      → All (Simulates u best tol) (rounds_named b)
  unfolding apply_simulate rounds_named
  simulate_rounds_held b small unset away h =
      let held = ((eligible_iff u (apply_simulate c b) best tol small).0 h).rounds in
      elim (Bool-cases (b.round == 0)) [
        | inl e ↦ rw e (
            All-map b.rounds
              (span-Simulates (base_needs b) (span_of empty_span b.rounds) unset away
                (rw (e, apply_simulate) at held))
              (span_of-Covers empty_span b.rounds empty-Bounds))
        | inr e ↦ rw e (single b e (rw (e, apply_simulate) at held), tt)
      ]
