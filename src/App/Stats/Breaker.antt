-- ===== src/App/Stats/Breaker.antt =====
-- When the breaker of an upstream opens, and how it closes again.
use algod_loadb_mesh.Base.{
  ℕ, ◌+◌, ◌≤◌, ◌<◌, ◌≡◌, refl, ◌∙◌, subst, inl, inr, true, false, List, [], ◌∷◌, arith, ltb, leb,
  if◌then◌else◌, Bool-cases, Time, length, All, Float,
}
use algod_loadb_mesh.App.Stats.{has_failed, BreakerOptions, UpstreamStats, record_one, observed}
use algod_loadb_mesh.App.Stats.Rate.{Sample, record_all}

-- Below the threshold a time is left as it was.
unopened :
    (th a b : ℕ) (early late t s : Time)
    → a ≤ b
    → t ≡ (if leb th a then early else s)
    → (if leb th b then late else t) ≡ (if leb th b then late else s)
unopened th a b early late t s h e = ground arith

module _ {R : Type 0} ⦃f : Float R⦄ (opts : BreakerOptions R) where
  abbrev AllFailed : List Sample → Type 0
  AllFailed = All (λ x. has_failed x.out ≡ true)

  -- The time of the last outcome of a series that follows `x`.
  abbrev last_time : Sample → List Sample → Time
  last_time x [] = x.at_time
  last_time x (y ∷ ys) = last_time y ys

  -- `k` failures in a row since the last success.
  abbrev IsCounted : ℕ → UpstreamStats R → Type 0
  IsCounted k s = (s.failures ≡ k) × (s.probing ≡ leb opts.threshold k)

  fail-IsCounted :
      (s : UpstreamStats R) (x : Sample) (k : ℕ)
      → has_failed x.out ≡ true
      → IsCounted k s
      → let t = record_one opts s x.key x.out x.at_time in
        IsCounted (k + 1) t
        × (t.open_until
            ≡ (if leb opts.threshold (k + 1) then x.at_time + opts.open_for else s.open_until))
  unfolding record_one
  fail-IsCounted s x k bad h =
      rw bad ((rw h.0 refl, ground (arith, h.0, h.1)), ground (arith, h.0, h.1))

  failing :
      (xs : List Sample) (x : Sample) (s : UpstreamStats R) (k : ℕ)
      → AllFailed (x ∷ xs)
      → IsCounted k s
      → let t = record_all opts s (x ∷ xs) in
        t.open_until ≡ (
          if leb opts.threshold (k + length (x ∷ xs))
          then last_time x xs + opts.open_for
          else s.open_until)
  failing [] x s k bad h = (fail-IsCounted s x k bad.0 h).1
  failing (y ∷ ys) x s k bad h =
      let t = record_one opts s x.key x.out x.at_time in
      let one = fail-IsCounted s x k bad.0 h in
      let ih = failing ys y t (k + 1) bad.1 one.0 in
      let n : k + 1 + length (y ∷ ys) ≡ k + length (x ∷ y ∷ ys) = omega arith in
      subst
        (λ m.
          (record_all opts t (y ∷ ys)).open_until
          ≡ (if leb opts.threshold m then last_time y ys + opts.open_for else s.open_until))
        n
        (ih ∙ unopened opts.threshold (k + 1) (k + 1 + length (y ∷ ys)) _ _ _ _ (omega arith) one.1)

  -- From a closed breaker on, a series of failures opens it once there are `Threshold` of them, for
  -- `OpenFor` after the last one; fewer leave it as it was.
  pub breaker_opens :
      (s : UpstreamStats R) (x : Sample) (xs : List Sample) (now : Time)
      → 0 < opts.threshold
      → s.failures ≡ 0
      → s.probing ≡ false
      → AllFailed (x ∷ xs)
      → (observed (record_all opts s (x ∷ xs)) now).breaker_open ≡ (
          if leb opts.threshold (length (x ∷ xs))
          then ltb now (last_time x xs + opts.open_for)
          else ltb now s.open_until)
  unfolding observed
  breaker_opens s x xs now some_th none_yet calm bad =
      let start : IsCounted 0 s = (none_yet, ground arith) in
      let e = failing xs x s 0 bad start in
      let n : 0 + length (x ∷ xs) ≡ length (x ∷ xs) = omega arith in
      let e' = rw n at e in ground (arith, e')

  -- Once a breaker has opened, any failure opens it again for `OpenFor`, and a success ends the
  -- probing and leaves it as it was.
  pub breaker_probes :
      (s : UpstreamStats R) (x : Sample) (now : Time)
      → s.probing ≡ true
      → let t = record_one opts s x.key x.out x.at_time in
        (t.probing ≡ has_failed x.out)
        × ((observed t now).breaker_open ≡ (
            if has_failed x.out then ltb now (x.at_time + opts.open_for) else ltb now s.open_until))
  unfolding observed record_one
  breaker_probes s x now tripped = elim (Bool-cases (has_failed x.out)) [
    | inl e ↦ rw e (ground arith, ground arith)
    | inr e ↦ rw e (refl, refl)
  ]
