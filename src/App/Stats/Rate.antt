-- ===== src/App/Stats/Rate.antt =====
-- The error rate that the selector sees is that of the last `Window` outcomes.
use algod_loadb_mesh.Base.{
  ℕ, zero, suc, ◌+◌, ◌-◌, ◌≤◌, ◌<◌, ◌≡◌, refl, sym, ap, ◌∙◌, inl, inr, Bool, true, false, List, [],
  ◌∷◌, ◌++◌, arith, ltb, if◌then◌else◌, Bool-cases, Time, Bytes, length, take, drop, length-append,
  take-append-drop, length-replicate, Float,
}
use algod_loadb_mesh.App.Stats.{
  Outcome, has_failed, BreakerOptions, UpstreamStats, count_true, fresh_stats, slide, window_size,
  fails, record_one, observed,
}
use algod_loadb_mesh.App.Stats.Ring.{
  push, drop-step, take-all, length-take-le, length-drop, drop-append, queue, IsRing, slide-IsRing,
  queue-slide,
}
use mathlib.Core.List.{append-nil, append_assoc}

module _ {A : Type 0} where
  -- The last `w` elements.
  abbrev pub last_n : ℕ → List A → List A
  last_n w xs = drop (length xs - w) xs

  drop-nil : (i : ℕ) → drop {A = A} i [] ≡ []
  drop-nil zero = refl
  drop-nil (suc i) = refl

  drop-append_le : (i : ℕ) (xs ys : List A) → i ≤ length xs → drop i (xs ++ ys) ≡ drop i xs ++ ys
  drop-append_le zero xs ys h = refl
  drop-append_le (suc i) [] ys h = absurd (omega arith)
  drop-append_le (suc i) (x ∷ xs) ys h = drop-append_le i xs ys (omega arith)

  push-last_n :
      (w : ℕ) (xs : List A) (b : A) → 0 < w → push w (last_n w xs) b ≡ last_n w (xs ++ (b ∷ []))
  push-last_n w xs b h =
      let n : length (xs ++ (b ∷ [])) ≡ length xs + 1 = length-append xs (b ∷ []) in
      elim (Bool-cases (ltb (length xs) w)) [
        | inl e ↦
            let z : length xs - w ≡ 0 = ground arith in
            let z' : length xs + 1 - w ≡ 0 = ground arith in rw (n, z, z', e) refl
        | inr e ↦
            let k : length xs + 1 - w ≡ suc (length xs - w) = ground arith in
            let d = length-drop (length xs - w) xs (omega arith) in
            let full : ltb (length (drop (length xs - w) xs)) w ≡ false = ground (arith, d) in
            rw
              (
                n,
                k,
                full,
                drop-append (drop (length xs - w) xs) (b ∷ []) (ground (arith, d)),
                drop-step (length xs - w) xs,
              )
              (sym (drop-append_le (suc (length xs - w)) xs (b ∷ []) (ground arith)))
      ]

count_true-append : (xs ys : List Bool) → count_true (xs ++ ys) ≡ count_true xs + count_true ys
count_true-append [] ys = omega arith
count_true-append (true ∷ xs) ys = omega (arith, count_true-append xs ys)
count_true-append (false ∷ xs) ys = count_true-append xs ys

module _ {R : Type 0} where
  fails-queue : (s : UpstreamStats R) → fails s ≡ count_true (queue s)
  unfolding fails
  fails-queue s = elim (Bool-cases s.window_full) [
    | inl e ↦
        let parts = count_true-append (drop s.window_pos s.window) (take s.window_pos s.window) in
        let whole = count_true-append (take s.window_pos s.window) (drop s.window_pos s.window) in
        rw (e, take-all s.window)
          (ap count_true (sym (take-append-drop s.window_pos s.window))
            ∙ omega (arith, parts, whole))
    | inr e ↦ rw e refl
  ]

  size-queue : (w : ℕ) (s : UpstreamStats R) → IsRing w s → window_size s ≡ length (queue s)
  size-queue w s r = elim (Bool-cases s.window_full) [
    | inl e ↦
        let d = length-drop s.window_pos s.window (omega (arith, r.0, r.1)) in
        let t = length-take-le s.window_pos s.window (omega (arith, r.0, r.1)) in
        let n = length-append (drop s.window_pos s.window) (take s.window_pos s.window) in
        rw e (omega (arith, d, t, n))
    | inr e ↦ rw e (sym (length-take-le s.window_pos s.window (omega (arith, r.0, r.1))))
  ]

-- An outcome of a request, under its statistics key, with the time it is recorded at.
pub record Sample : Type 0 where
  pub key : Bytes
  pub out : Outcome
  pub at_time : Time

module _ {R : Type 0} ⦃f : Float R⦄ (opts : BreakerOptions R) where
  -- A series of outcomes, recorded in turn.
  abbrev pub record_all : UpstreamStats R → List Sample → UpstreamStats R
  record_all s [] = s
  record_all s (x ∷ xs) = record_all (record_one opts s x.key x.out x.at_time) xs

  -- The share of failures in a list of outcomes.
  abbrev pub rate : List Bool → R
  rate q =
      if ltb 0 (length q) then f.div (f.of_nat (count_true q)) (f.of_nat (length q)) else f.of_nat 0

  abbrev pub failed_of : List Sample → List Bool
  failed_of [] = []
  failed_of (x ∷ xs) = has_failed x.out ∷ failed_of xs

  -- The ring holds the last outcomes of a series.
  abbrev pub Holds : UpstreamStats R → List Bool → Type 0
  Holds s l = IsRing opts.window s × (queue s ≡ last_n opts.window l)

  record_one-ring :
      (s : UpstreamStats R) (x : Sample)
      → let t = record_one opts s x.key x.out x.at_time in
        let u = slide s (has_failed x.out) in
        (t.window ≡ u.window) × (t.window_pos ≡ u.window_pos) × (t.window_full ≡ u.window_full)
  unfolding record_one
  record_one-ring s x = elim (Bool-cases (has_failed x.out)) [
    | inl e ↦ rw e (refl, refl, refl)
    | inr e ↦ rw e (refl, refl, refl)
  ]

  record_one-Holds :
      (s : UpstreamStats R) (x : Sample) (l : List Bool)
      → 0 < opts.window
      → Holds s l
      → Holds (record_one opts s x.key x.out x.at_time) (l ++ (has_failed x.out ∷ []))
  record_one-Holds s x l some_room h =
      let same = record_one-ring s x in
      let bad = has_failed x.out in
      rw (same.0, same.1, same.2)
        (
          slide-IsRing opts.window s bad h.0,
          queue-slide opts.window s bad h.0 ∙ rw h.1 (push-last_n opts.window l bad some_room),
        )

  record_all-Holds :
      (xs : List Sample) (s : UpstreamStats R) (l : List Bool)
      → 0 < opts.window
      → Holds s l
      → Holds (record_all s xs) (l ++ failed_of xs)
  record_all-Holds [] s l some_room h = rw (append-nil l) h
  record_all-Holds (x ∷ xs) s l some_room h =
      let t = record_one opts s x.key x.out x.at_time in
      let bad = has_failed x.out in
      rw (append_assoc l (bad ∷ []) (failed_of xs)) at
        (record_all-Holds xs t (l ++ (bad ∷ [])) some_room (record_one-Holds s x l some_room h))

  -- The error rate that the selector sees of an upstream is the share of failures among its last
  -- `Window` outcomes, for a window of at least 1: the ring buffer is a queue.
  pub error_rate_recent :
      (xs : List Sample) (now : Time)
      → 0 < opts.window
      → (observed (record_all (fresh_stats opts) xs) now).error_rate
        ≡ rate (last_n opts.window (failed_of xs))
  unfolding observed
  error_rate_recent xs now some_room =
      let s = record_all (fresh_stats opts) xs in
      let start : Holds (fresh_stats opts) [] =
        ((length-replicate opts.window false, some_room), rw (drop-nil (0 - opts.window)) refl) in
      let h = record_all-Holds xs (fresh_stats opts) [] some_room start in
      rw (fails-queue s, size-queue opts.window s h.0, h.1) refl
