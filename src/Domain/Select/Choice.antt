-- ===== src/Domain/Select/Choice.antt =====
-- Where `Select` may fall among the sorted candidates: in the top tier, and off the edge of a state
-- window when a time-travel node is eligible and the tier has another node.
use algod_loadb_mesh.Base.{
  ℕ, zero, suc, ◌+◌, ◌-◌, ◌≤◌, ◌<◌, ◌≡◌, ◌⊎◌, inl, inr, Bool, true, false, not, ◌&&◌, Option, none,
  some, List, [], ◌∷◌, arith, ltb, Bool-cases, length, get_or, All, Among-All, get_or-Among,
  List-cases, ℤ, eqb_ℤ, Float,
}
use algod_loadb_mesh.Domain.Request.{RequestClass}
use algod_loadb_mesh.Domain.Select.{
  Mode, is_fallback, pool_or_all, effective_tier, state_window_edge, same_tier, indices, pool,
  draw_two, drawn, choose_index,
}
use algod_loadb_mesh.Domain.Upstream.{Upstream}

-- `rnd.IntN(n)` lies below n, as math/rand documents.
abbrev pub InRange : Option (ℕ → ℕ → ℕ) → Type 0
InRange none = Unit {0}
InRange (some rnd) = (i n : ℕ) → 0 < n → rnd i n < n

module _ {R : Type 0} ⦃f : Float R⦄ where
  -- An index that `indices` gives: within the first `n` elements, at one that passes.
  abbrev IsIndex : (Upstream R → Bool) → ℕ → ℕ → List (Upstream R) → Upstream R → ℕ → Type 0
  IsIndex p i n us d j =
      (i ≤ j) × (j < i + n) × (j < i + length us) × (p (get_or us (j - i) d) ≡ true)

  All-shift :
      (p : Upstream R → Bool) (i n : ℕ) (u d : Upstream R) (us : List (Upstream R)) (js : List ℕ)
      → All (IsIndex p (suc i) n us d) js
      → All (IsIndex p i (suc n) (u ∷ us) d) js
  All-shift p i n u d us [] h = tt
  All-shift p i n u d us (j ∷ js) h =
      let e : j - i ≡ suc (j - suc i) = omega (arith, h.0.0) in
      (
        (omega (arith, h.0.0), omega (arith, h.0.1), omega (arith, h.0.2), rw e h.0.3),
        All-shift p i n u d us js h.1,
      )

  indices-IsIndex :
      (p : Upstream R → Bool) (i n : ℕ) (us : List (Upstream R)) (d : Upstream R)
      → All (IsIndex p i n us d) (indices p i n us)
  unfolding indices
  indices-IsIndex p i zero us d = tt
  indices-IsIndex p i (suc n) [] d = tt
  indices-IsIndex p i (suc n) (u ∷ us) d =
      let rest =
        All-shift p i n u d us (indices p (suc i) n us) (indices-IsIndex p (suc i) n us d) in
      elim (Bool-cases (p u)) [
        | inl e ↦
            let z : i - i ≡ 0 = omega arith in
            rw e ((omega arith, omega arith, omega arith, rw z e), rest)
        | inr e ↦ rw e rest
      ]

  -- `indices` misses no element that passes.
  indices-empty :
      (p : Upstream R → Bool) (i n : ℕ) (us : List (Upstream R)) (d : Upstream R)
      → indices p i n us ≡ []
      → (j : ℕ) → j < n
      → j < length us
      → p (get_or us j d) ≡ false
  unfolding indices
  indices-empty p i zero us d e j h k = absurd (omega arith)
  indices-empty p i (suc n) [] d e j h k = absurd (omega arith)
  indices-empty p i (suc n) (u ∷ us) d e zero h k = ground arith
  indices-empty p i (suc n) (u ∷ us) d e (suc j) h k =
      indices-empty p (suc i) n us d (ground arith) j (omega arith) (omega arith)

  same_tier-le : (mode : Mode) (t : ℤ) (us : List (Upstream R)) → same_tier mode t us ≤ length us
  unfolding same_tier
  same_tier-le mode t [] = omega arith
  same_tier-le mode t (u ∷ us) = ground (arith, same_tier-le mode t us)

  same_tier-get_or :
      (mode : Mode) (t : ℤ) (us : List (Upstream R)) (d : Upstream R) (i : ℕ)
      → i < same_tier mode t us
      → eqb_ℤ (effective_tier mode (get_or us i d)) t ≡ true
  unfolding same_tier
  same_tier-get_or mode t [] d i h = absurd (omega arith)
  same_tier-get_or mode t (u ∷ us) d zero h = ground arith
  same_tier-get_or mode t (u ∷ us) d (suc i) h =
      elim (Bool-cases (eqb_ℤ (effective_tier mode u) t)) [
        | inl e ↦ same_tier-get_or mode t us d i (suc-lt _ _ (rw e at h))
        | inr e ↦ absurd (not-lt-zero _ (rw e at h))
      ]
    where
      suc-lt : (a b : ℕ) → suc a < suc b → a < b
      suc-lt a b h = omega arith

      not-lt-zero : (a : ℕ) → a < 0 → ⊥
      not-lt-zero a h = omega arith

  module _ (mode : Mode) (c : RequestClass) (has_tt : Bool) (top : Upstream R)
      (rest : List (Upstream R)) where
    abbrev at : ℕ → Upstream R
    at i = get_or (top ∷ rest) i top

    abbrev tier_size : ℕ
    tier_size = same_tier mode (effective_tier mode top) (top ∷ rest)

    abbrev off_edge : Upstream R → Bool
    off_edge u = not (has_tt && state_window_edge u c)

    -- An index of the top tier, off the edge unless the first candidate is on it.
    abbrev pub IsChoice : ℕ → Type 0
    IsChoice i =
        (i < length (top ∷ rest))
        × (eqb_ℤ (effective_tier mode (at i)) (effective_tier mode top) ≡ true)
        × ((off_edge (at i) ≡ true) ⊎ (off_edge top ≡ false))

    IsChoice-of_lt :
        (i : ℕ) → i < tier_size → (off_edge (at i) ≡ true) ⊎ (off_edge top ≡ false) → IsChoice i
    IsChoice-of_lt i h e =
        let le = same_tier-le mode (effective_tier mode top) (top ∷ rest) in
        (omega arith, same_tier-get_or mode (effective_tier mode top) (top ∷ rest) top i h, e)

    All-IsChoice :
        (p : Upstream R → Bool) (js : List ℕ)
        → ((i : ℕ) → p (at i) ≡ true → (off_edge (at i) ≡ true) ⊎ (off_edge top ≡ false))
        → All (IsIndex p 0 tier_size (top ∷ rest) top) js
        → All IsChoice js
    All-IsChoice p [] f h = tt
    All-IsChoice p (j ∷ js) f h =
        let z : j - 0 ≡ j = omega arith in
        (IsChoice-of_lt j (omega (arith, h.0.1)) (f j (rw z at h.0.3)), All-IsChoice p js f h.1)

    tier_size_pos : 0 < tier_size
    unfolding same_tier
    tier_size_pos = ground arith

    pool-IsChoice : All IsChoice (pool c has_tt tier_size (top ∷ rest))
    unfolding pool
    pool-IsChoice = elim (List-cases (indices off_edge 0 tier_size (top ∷ rest))) [
      | inl e ↦
          rw (e, pool_or_all)
            (All-IsChoice (λ u. true) _
              (λ i h. inr (
                indices-empty off_edge 0 tier_size (top ∷ rest) top e 0 tier_size_pos
                  (omega arith)))
              (indices-IsIndex (λ u. true) 0 tier_size (top ∷ rest) top))
      | inr (j, js, e) ↦
          rw (e, pool_or_all)
            (All-IsChoice off_edge (j ∷ js) (λ i h. inl h)
              (rw e at (indices-IsIndex off_edge 0 tier_size (top ∷ rest) top)))
    ]

    indices_pos : (n : ℕ) → 0 < n → 0 < length (indices (λ u. true) 0 n (top ∷ rest))
    unfolding indices
    indices_pos zero h = h
    indices_pos (suc n) h = omega arith

    pool_pos : 0 < length (pool c has_tt tier_size (top ∷ rest))
    unfolding pool
    pool_pos = elim (List-cases (indices off_edge 0 tier_size (top ∷ rest))) [
      | inl e ↦ rw (e, pool_or_all) (indices_pos tier_size tier_size_pos)
      | inr (j, js, e) ↦ rw (e, pool_or_all) (omega arith)
    ]

    draw-IsChoice :
        (rnd : ℕ → ℕ → ℕ)
        → ((i n : ℕ) → 0 < n → rnd i n < n)
        → (js : List ℕ) → 0 < length js
        → All IsChoice js
        → IsChoice (draw_two rnd top rest js)
    unfolding draw_two
    draw-IsChoice rnd fair js some_left choices =
        let drawn_at : (k : ℕ) → IsChoice (get_or js (rnd k (length js)) 0) = λ k.
          Among-All IsChoice _ js choices
            (get_or-Among js (rnd k (length js)) 0 (fair k (length js) some_left)) in
        let a = get_or js (rnd 0 (length js)) 0 in
        let b = get_or js (rnd 1 (length js)) 0 in
        elim (Bool-cases (f.lt (at b).score (at a).score)) [
          | inl e ↦ rw e (drawn_at 1)
          | inr e ↦ rw e (drawn_at 0)
        ]

    first-IsChoice : IsChoice 0
    first-IsChoice =
        IsChoice-of_lt 0 tier_size_pos
          (elim (Bool-cases (off_edge top)) [ inl e ↦ inl e | inr e ↦ inr e ])

    pub choose_index-IsChoice :
        (rnd : Option (ℕ → ℕ → ℕ))
        → InRange rnd
        → IsChoice (choose_index mode c has_tt rnd top rest)
    unfolding choose_index
    choose_index-IsChoice rnd fair = elim (Bool-cases (not (is_fallback mode) && ltb 1 tier_size)) [
      | inl e ↦ rw e (go rnd fair)
      | inr e ↦ rw e first-IsChoice
    ]
      where
        go :
            (rnd : Option (ℕ → ℕ → ℕ))
            → InRange rnd
            → IsChoice (drawn rnd top rest (pool c has_tt tier_size (top ∷ rest)))
        go none fair = first-IsChoice
        go (some rnd) fair = draw-IsChoice rnd fair _ pool_pos pool-IsChoice
