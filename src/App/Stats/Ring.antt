-- ===== src/App/Stats/Ring.antt =====
-- The ring of outcomes is a queue of the last `window` ones, and the error rate is over that queue.
use algod_loadb_mesh.Base.{
  ℕ, zero, suc, ◌+◌, ◌%◌, ◌≤◌, ◌<◌, ◌≡◌, refl, sym, ap, ◌∙◌, subst, ◌⊎◌, inl, inr, Bool, true,
  false, List, [], ◌∷◌, ◌++◌, arith, ltb, ◌==◌, if◌then◌else◌, Bool-cases, length, set, take, drop,
  length-append, length-set, take-append-drop,
}
use algod_loadb_mesh.App.Stats.{UpstreamStats, slide}
use native.Mathlib.Nat.{mod-eq_of_lt, mod_self}
use mathlib.Core.List.{append-nil, append_assoc}

module _ {A : Type 0} where
  -- The queue with one more element, of the last `w` that went in.
  abbrev pub push : ℕ → List A → A → List A
  push w q b = if ltb (length q) w then q ++ (b ∷ []) else drop 1 (q ++ (b ∷ []))

  take-set :
      (i : ℕ) (b : A) (xs : List A)
      → i < length xs
      → take (suc i) (set xs i b) ≡ take i xs ++ (b ∷ [])
  take-set i b [] h = absurd (omega arith)
  take-set zero b (x ∷ xs) h = refl
  take-set (suc i) b (x ∷ xs) h = ap (λ r. x ∷ r) (take-set i b xs (omega arith))

  drop-set : (i : ℕ) (b : A) (xs : List A) → drop (suc i) (set xs i b) ≡ drop (suc i) xs
  drop-set i b [] = refl
  drop-set zero b (x ∷ xs) = refl
  drop-set (suc i) b (x ∷ xs) = drop-set i b xs

  pub drop-step : (i : ℕ) (xs : List A) → drop 1 (drop i xs) ≡ drop (suc i) xs
  drop-step zero xs = refl
  drop-step (suc i) [] = refl
  drop-step (suc i) (x ∷ xs) = drop-step i xs

  drop-all : (xs : List A) → drop (length xs) xs ≡ []
  drop-all [] = refl
  drop-all (x ∷ xs) = drop-all xs

  pub take-all : (xs : List A) → take (length xs) xs ≡ xs
  take-all [] = refl
  take-all (x ∷ xs) = ap (λ r. x ∷ r) (take-all xs)

  pub length-take-le : (i : ℕ) (xs : List A) → i ≤ length xs → length (take i xs) ≡ i
  length-take-le zero xs h = refl
  length-take-le (suc i) [] h = absurd (omega arith)
  length-take-le (suc i) (x ∷ xs) h = ap suc (length-take-le i xs (omega arith))

  pub length-drop : (i : ℕ) (xs : List A) → i ≤ length xs → length (drop i xs) + i ≡ length xs
  length-drop zero xs h = omega arith
  length-drop (suc i) [] h = absurd (omega arith)
  length-drop (suc i) (x ∷ xs) h = omega (arith, length-drop i xs (omega arith))

  pub drop-append : (xs ys : List A) → 0 < length xs → drop 1 (xs ++ ys) ≡ drop 1 xs ++ ys
  drop-append [] ys h = absurd (omega arith)
  drop-append (x ∷ xs) ys h = refl

-- What a ring holds, the oldest first.
abbrev ring_queue {ℓ} : {A : Type ℓ} → Bool → ℕ → List A → List A
ring_queue full p xs = if full then drop p xs ++ take p xs else take p xs

module _ {R : Type 0} where
  abbrev pub queue : UpstreamStats R → List Bool
  queue s = ring_queue s.window_full s.window_pos s.window

  -- The position stays within the ring.
  abbrev pub IsRing : ℕ → UpstreamStats R → Type 0
  IsRing w s = (length s.window ≡ w) × (s.window_pos < w)

next-cases :
    (p w : ℕ) → p < w → ((p + 1 < w) × ((p + 1) % w ≡ p + 1)) ⊎ ((p + 1 ≡ w) × ((p + 1) % w ≡ 0))
next-cases p w h = elim (Bool-cases (ltb (p + 1) w)) [
  | inl e ↦ inl (ground arith, mod-eq_of_lt (ground arith))
  | inr e ↦ let last : p + 1 ≡ w = ground arith in inr (last, rw last (mod_self w))
]

module _ {A : Type 0} (xs : List A) (p : ℕ) (b : A) (h : p < length xs) where
  push-full :
      push (length xs) (drop p xs ++ take p xs) b ≡ drop (suc p) xs ++ (take p xs ++ (b ∷ []))
  push-full =
      let d = length-drop p xs (omega arith) in
      let n : length (drop p xs ++ take p xs) ≡ length xs =
        length-append (drop p xs) (take p xs)
        ∙ omega (arith, d, length-take-le p xs (omega arith)) in
      let e : ltb (length xs) (length xs) ≡ false = ground arith in
      rw
        (
          n,
          e,
          append_assoc (drop p xs) (take p xs) (b ∷ []),
          drop-append (drop p xs) (take p xs ++ (b ∷ [])) (omega arith),
          drop-step p xs,
        )
        refl

  push-part : push (length xs) (take p xs) b ≡ take p xs ++ (b ∷ [])
  push-part =
      let n = length-take-le p xs (omega arith) in
      let e : ltb p (length xs) ≡ true = ground arith in rw (n, e) refl

  set-last : p + 1 ≡ length xs → set xs p b ≡ take p xs ++ (b ∷ [])
  set-last e =
      let all_but : suc p ≡ length xs = omega arith in
      sym (take-append-drop (suc p) (set xs p b))
      ∙ (rw (take-set p b xs h, drop-set p b xs, all_but, drop-all xs) (append-nil _))

  -- The position moves on within the ring.
  ring-step :
      (full : Bool) (n : ℕ)
      → n ≡ suc p
      → ring_queue (if n == 0 then true else full) n (set xs p b)
        ≡ push (length xs) (ring_queue full p xs) b
  ring-step true n e =
      let z : (suc p == 0) ≡ false = ground arith in
      rw (e, z, drop-set p b xs, take-set p b xs h) (sym push-full)
  ring-step false n e =
      let z : (suc p == 0) ≡ false = ground arith in rw (e, z, take-set p b xs h) (sym push-part)

  -- The position moves back to the start.
  ring-wrap :
      (full : Bool) (n : ℕ)
      → n ≡ 0
      → p + 1 ≡ length xs
      → ring_queue (if n == 0 then true else full) n (set xs p b)
        ≡ push (length xs) (ring_queue full p xs) b
  ring-wrap true n e last =
      let all_but : suc p ≡ length xs = omega (arith, last) in
      rw (e, push-full, all_but, drop-all xs) (append-nil _ ∙ set-last last)
  ring-wrap false n e last = rw (e, push-part) (append-nil _ ∙ set-last last)

module _ {R : Type 0} (w : ℕ) (s : UpstreamStats R) (bad : Bool) (r : IsRing w s) where
  pub slide-IsRing : IsRing w (slide s bad)
  slide-IsRing =
      let sized = length-set s.window s.window_pos bad in
      elim (next-cases s.window_pos (length s.window) (omega (arith, r.0, r.1))) [
        | inl e ↦ (sized ∙ r.0, rw e.1 (omega (arith, e.0, r.0)))
        | inr e ↦ (sized ∙ r.0, rw e.1 (omega (arith, r.1)))
      ]

  -- The ring takes one more outcome the way that the queue does.
  pub queue-slide : queue (slide s bad) ≡ push w (queue s) bad
  queue-slide =
      let within : s.window_pos < length s.window = omega (arith, r.0, r.1) in
      subst (λ n. queue (slide s bad) ≡ push n (queue s) bad) r.0
        (elim (next-cases s.window_pos (length s.window) within) [
          | inl e ↦ ring-step s.window s.window_pos bad within s.window_full _ (e.1 ∙ omega arith)
          | inr e ↦ ring-wrap s.window s.window_pos bad within s.window_full _ e.1 e.0
        ])
