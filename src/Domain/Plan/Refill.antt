-- ===== src/Domain/Plan/Refill.antt =====
-- How a bucket fills up again.
use algod_loadb_mesh.Base.{
  ◌≤◌, ◌≡◌, refl, inl, inr, true, false, arith, Bool-cases, if_cases, Time, is_zero, sub_time, pos,
  ltb_ℤ, Float, IsOrdered, ge,
}
use algod_loadb_mesh.Domain.Plan.{PlanWindow, Bucket, limited, refill, full}

module _ {R : Type 0} ⦃f : Float R⦄ (o : IsOrdered f) (w : PlanWindow R) where
  capped : (a : R) → f.lt w.capacity (f.min a w.capacity) ≡ false
  capped a = o.min_le a w.capacity

  irreflexive : (a : R) → f.lt a a ≡ false
  irreflexive a = elim (Bool-cases (f.lt a a)) [ inl e ↦ o.lt_asymm a a e | inr e ↦ e ]

  abbrev Holds : Bucket R → Type 0
  Holds x = f.lt w.capacity x.level ≡ false

  -- A refilled bucket of a window that limits holds at most the capacity, whatever it held, and
  -- is dated no earlier than before.
  pub refill_bounded :
      (b : Bucket R) (now : Time)
      → limited w ≡ true
      → (f.lt w.capacity (refill w b now).level ≡ false) × (b.at_time ≤ (refill w b now).at_time)
  unfolding refill
  refill_bounded b now l = (
    rw l (
        if_cases Holds (is_zero b.at_time) (λ e. irreflexive w.capacity)
          (λ e.
            if_cases Holds (ltb_ℤ (pos 0) (sub_time now b.at_time)) (λ d. capped _)
              (λ d. capped _))),
    ground arith,
  )

  level-eq :
      (a : R) → f.lt w.capacity a ≡ false → ge f a w.capacity ≡ true → f.eq a w.capacity ≡ true
  level-eq a h k = ground (arith, h, k)

  full-ge : (x : Bucket R) → limited w ≡ true → full w x ≡ true → ge f x.level w.capacity ≡ true
  unfolding full
  full-ge x l h = rw l at h

  -- Forgetting a full bucket loses nothing: a new one holds as much.
  pub full_forgotten :
      (b : Bucket R) (now later : Time)
      → limited w ≡ true
      → full w (refill w b now) ≡ true
      → f.eq
          (refill w b now).level
          (refill w (record { level = f.of_nat 0; at_time = 0 }) later).level
        ≡ true
  unfolding refill
  full_forgotten b now later l h =
      let bound = (refill_bounded b now l).0 in
      let h' = full-ge (refill w b now) l h in
      let new : (refill w (record { level = f.of_nat 0; at_time = 0 }) later).level ≡ w.capacity =
        rw l refl in
      rw new (level-eq (refill w b now).level bound h')
