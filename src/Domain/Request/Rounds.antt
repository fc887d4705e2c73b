-- ===== src/Domain/Request/Rounds.antt =====
-- The rounds that a simulate body names, against the span that the class keeps of them.
use algod_loadb_mesh.Base.{ℕ, ◌≤◌, ◌<◌, ◌≡◌, ◌⊎◌, true, List, [], ◌∷◌, arith, All}
use algod_loadb_mesh.Domain.Request.{Span, span_of, span_step, empty_span}

-- `s` bounds the rounds read so far: `lo` and `hi` are 0 together, before any round but 0.
pub record Bounds (s : Span) : Type 0 where
  pub ordered : s.lo ≤ s.hi
  pub both_zero : s.lo ≡ 0 → s.hi ≡ 0

pub empty-Bounds : Bounds empty_span
empty-Bounds = record { ordered = omega arith; both_zero = λ e. e }

step-Bounds : (s : Span) (r : ℕ) → Bounds s → Bounds (span_step s r)
step-Bounds s r b = record {
  ordered = ground (arith, b.both_zero);
  both_zero = ground (arith, b.both_zero);
}

span_of-Bounds : (s : Span) (rs : List ℕ) → Bounds s → Bounds (span_of s rs)
unfolding span_of
span_of-Bounds s [] b = b
span_of-Bounds s (r ∷ rs) b = span_of-Bounds (span_step s r) rs (step-Bounds s r b)

-- `hi` only grows and a positive `lo` only falls.
span_of_mono :
    (s : Span) (rs : List ℕ)
    → Bounds s
    → let t = span_of s rs in
      (s.hi ≤ t.hi) × (0 < s.lo → t.lo ≤ s.lo) × (s.latest ≡ true → t.latest ≡ true)
unfolding span_of
span_of_mono s [] b = (omega arith, λ h. omega arith, λ h. h)
span_of_mono s (r ∷ rs) b =
    let ih = span_of_mono (span_step s r) rs (step-Bounds s r b) in
    (ground (arith, ih.0), λ h. ground (arith, ih.1), λ h. ground (arith, ih.2))

-- Every round of the list is 0, and then `latest` is set, or it lies within the span.
abbrev pub Covers : Span → ℕ → Type 0
Covers s r = ((r ≡ 0) × (s.latest ≡ true)) ⊎ ((0 < r) × (s.lo ≤ r) × (r ≤ s.hi))

pub span_of-Covers : (s : Span) (rs : List ℕ) → Bounds s → All (Covers (span_of s rs)) rs
unfolding span_of
span_of-Covers s [] b = tt
span_of-Covers s (r ∷ rs) b =
    let m = span_of_mono (span_step s r) rs (step-Bounds s r b) in
    (ground (arith, m.0, m.1, m.2), span_of-Covers (span_step s r) rs (step-Bounds s r b))
