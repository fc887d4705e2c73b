-- ===== src/Domain/Judge/Trust.antt =====
-- How trust in an upstream is lost and won back, and when an upstream is published as synced.
use algod_loadb_mesh.Base.{
  ℕ, zero, suc, ◌+◌, ◌≤◌, ◌<◌, max, ◌≡◌, refl, ◌≢◌, ◌⊎◌, inl, inr, Bool, true, false, arith, ltb,
  if◌then◌else◌, ltb→lt, Bool-cases, Time, is_zero, sub_time, leb_ℤ, add_word,
}
use algod_loadb_mesh.Domain.Judge.{
  ReturnHysteresis, distrust, observe, current, SyncJudge, judge_reachable, judge,
}
use algod_loadb_mesh.Domain.Upstream.{Health, starting, offline, online, lagging, synced}

-- An upstream that is not trusted has not yet been seen synced often enough.
abbrev IsPending : ReturnHysteresis → Type 0
IsPending h = h.trusted ≡ false → h.streak < max h.required 1

observe-IsPending :
    (h : ReturnHysteresis) (judged : Health) → IsPending h → IsPending (observe h judged).0
unfolding observe
observe-IsPending h synced p = ground arith
observe-IsPending h lagging p = λ e. omega arith
observe-IsPending h online p = λ e. omega arith
observe-IsPending h offline p = λ e. omega arith
observe-IsPending h starting p = λ e. omega arith

-- `n` synced judgements in a row.
abbrev pub observe_synced_n : ℕ → ReturnHysteresis → ReturnHysteresis
observe_synced_n zero h = h
observe_synced_n (suc n) h = (observe (observe_synced_n n h) synced).0

count :
    (n : ℕ) (h : ReturnHysteresis)
    → 0 < h.required
    → let t = observe_synced_n n (distrust h) in
      (t.required ≡ h.required)
      × (n < h.required → (t.streak ≡ n) × (t.trusted ≡ false))
      × (h.required ≤ n → t.trusted ≡ true)
unfolding observe
count zero h r = (refl, λ k. (refl, refl), λ k. absurd (omega arith))
count (suc n) h r =
    let ih = count n h r in
    let t = observe_synced_n n (distrust h) in
    elim (Bool-cases (ltb n h.required)) [
      | inl e ↦
          let now = ih.1 (ltb→lt n h.required e) in
          (
            ground (arith, ih.0),
            λ k. ground (arith, ih.0, now.0, now.1),
            λ k. ground (arith, ih.0, now.0, now.1),
          )
      | inr e ↦
          let won : t.trusted ≡ true = ih.2 (ground arith) in
          (ground (arith, ih.0, won), λ k. absurd (ground arith), λ k. ground (arith, won))
    ]

lost :
    (h : ReturnHysteresis) (judged : Health) → judged ≢ synced → (observe h judged).0 ≡ distrust h
unfolding observe
lost h synced other = absurd (other refl)
lost h lagging other = refl
lost h online other = refl
lost h offline other = refl
lost h starting other = refl

-- After anything but a synced judgement, exactly `required` synced ones in a row win the trust
-- back: `lagging` is published for the ones before, `synced` from then on.
pub observe_regains :
    (h : ReturnHysteresis) (judged : Health) (n : ℕ)
    → 0 < h.required
    → judged ≢ synced
    → let t = observe_synced_n n (observe h judged).0 in
      (observe t synced).1 ≡ (if ltb (n + 1) h.required then lagging else synced)
unfolding observe
observe_regains h judged n r other =
    let c = count n h r in rw (lost h judged other) (ground (arith, c.0, c.1, c.2))

-- `Judge` publishes `synced` only of a reachable upstream that is within the tolerance, or at most
-- one round beyond it for less than the grace period.
pub judge_synced :
    (j : SyncJudge) (now : Time) (up : Bool) (round best : ℕ)
    → (judge j now up round best).1 ≡ synced
    → (up ≡ true)
      × ((best ≤ add_word round j.tolerance)
          ⊎ ((best ≤ add_word (add_word round j.tolerance) 1)
              × (leb_ℤ j.grace (sub_time now (if is_zero j.behind then now else j.behind))
                  ≡ false)))
unfolding judge judge_reachable observe current
judge_synced j now up round best h = ground arith

-- A second observation of the same round does not count towards the trust.
pub judge_same_round :
    (j : SyncJudge) (now : Time) (round best : ℕ)
    → j.seen ≡ true
    → j.last_round ≡ round
    → best ≤ add_word round j.tolerance
    → judge j now true round best ≡ (record j { behind = 0 }, current j.hyst)
unfolding judge judge_reachable
judge_same_round j now round best s e le = ground arith
