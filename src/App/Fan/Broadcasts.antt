-- ===== src/App/Fan/Broadcasts.antt =====
-- What the client of a broadcast gets.
use algod_loadb_mesh.Base.{
  ℕ, ◌+◌, ◌≤◌, ◌≡◌, refl, ◌∙◌, ◌⊎◌, inl, inr, Bool, true, false, Option, none, some, List, [], ◌∷◌,
  arith, ltb, if◌then◌else◌, Bool-cases, is_some, All, Among,
}
use algod_loadb_mesh.App.Fan.{
  FanResult, is_ok, is_unanswered, Broadcast, succeeded, all_failed, better_fallback,
  collect_broadcast,
}
use algod_loadb_mesh.App.Router.{fan_rank}

abbrev pub count_unanswered : List FanResult → ℕ
count_unanswered [] = 0
count_unanswered (r ∷ rs) = (if is_unanswered r.status then 1 else 0) + count_unanswered rs

-- What the collection of these results ends with, by rank, with `n` nodes unanswered before.
abbrev IsCollected : List FanResult → ℕ → Broadcast → Type 0
IsCollected rs n (succeeded r) = Among r rs × (is_ok r.status ≡ true)
IsCollected rs n (all_failed none m) = (rs ≡ []) × (m ≡ n)
IsCollected rs n (all_failed (some b) m) =
    All (λ r. (is_ok r.status ≡ false) × (fan_rank r.status ≤ fan_rank b.status)) rs
    × (m ≡ n + count_unanswered rs)

abbrev IsAbove : FanResult → Broadcast → Type 0
IsAbove b (succeeded r) = Unit {0}
IsAbove b (all_failed none m) = ⊥
IsAbove b (all_failed (some c) m) = fan_rank b.status ≤ fan_rank c.status

fallback-ge :
    (o : Option FanResult) (r : FanResult)
    → fan_rank r.status ≤ fan_rank (better_fallback o r).status
fallback-ge none r = omega arith
fallback-ge (some b) r = ground arith

fallback-keeps :
    (b r : FanResult) → fan_rank b.status ≤ fan_rank (better_fallback (some b) r).status
fallback-keeps b r = ground arith

IsCollected-cons :
    (n k : ℕ) (b r : FanResult) (rs : List FanResult) (x : Broadcast)
    → is_ok r.status ≡ false
    → k ≡ n + (if is_unanswered r.status then 1 else 0)
    → fan_rank r.status ≤ fan_rank b.status
    → IsCollected rs k x
    → IsAbove b x
    → IsCollected (r ∷ rs) n x
IsCollected-cons n k b r rs (succeeded c) e m l h a = (inr h.0, h.1)
IsCollected-cons n k b r rs (all_failed none j) e m l h a = elim a [ ]
IsCollected-cons n k b r rs (all_failed (some c) j) e m l h a =
    (((e, omega arith), h.0), omega (arith, h.1))

IsAbove-weaken :
    (b c : FanResult) (x : Broadcast)
    → fan_rank b.status ≤ fan_rank c.status
    → IsAbove c x
    → IsAbove b x
IsAbove-weaken b c (succeeded r) l a = a
IsAbove-weaken b c (all_failed none m) l a = a
IsAbove-weaken b c (all_failed (some d) m) l a = omega arith

counted : (n : ℕ) (b : Bool) → (if b then n + 1 else n) ≡ n + (if b then 1 else 0)
counted n true = omega arith
counted n false = omega arith

collect-IsCollected :
    (b : FanResult) (n : ℕ) (rs : List FanResult)
    → IsCollected rs n (collect_broadcast (some b) n rs)
      × IsAbove b (collect_broadcast (some b) n rs)
unfolding collect_broadcast
collect-IsCollected b n [] = ((tt, omega arith), omega arith)
collect-IsCollected b n (r ∷ rs) = elim (Bool-cases (is_ok r.status)) [
  | inl e ↦ rw e ((inl refl, e), tt)
  | inr e ↦
      let k = if is_unanswered r.status then n + 1 else n in
      let c = better_fallback (some b) r in
      let (h, a) = collect-IsCollected c k rs in
      rw e (
        IsCollected-cons n k c r rs _ e (counted n (is_unanswered r.status))
            (fallback-ge (some b) r) h a,
        IsAbove-weaken b c _ (fallback-keeps b r) a,
      )
]

-- The fallback is the one before or one of the results.
abbrev IsFrom : FanResult → List FanResult → Broadcast → Type 0
IsFrom b rs (succeeded r) = Unit {0}
IsFrom b rs (all_failed none m) = ⊥
IsFrom b rs (all_failed (some c) m) = (c ≡ b) ⊎ Among c rs

fallback-either :
    (b r : FanResult) → (better_fallback (some b) r ≡ b) ⊎ (better_fallback (some b) r ≡ r)
fallback-either b r = elim (Bool-cases (ltb (fan_rank b.status) (fan_rank r.status))) [
  | inl e ↦ rw e (inr refl)
  | inr e ↦ rw e (inl refl)
]

IsFrom-cons :
    (b c r : FanResult) (rs : List FanResult) (x : Broadcast)
    → (c ≡ b) ⊎ (c ≡ r)
    → IsFrom c rs x
    → IsFrom b (r ∷ rs) x
IsFrom-cons b c r rs (succeeded y) h m = tt
IsFrom-cons b c r rs (all_failed none k) h m = m
IsFrom-cons b c r rs (all_failed (some d) k) h (inr m) = inr (inr m)
IsFrom-cons b c r rs (all_failed (some d) k) (inl h) (inl e) = inl (e ∙ h)
IsFrom-cons b c r rs (all_failed (some d) k) (inr h) (inl e) = inr (inl (e ∙ h))

collect-IsFrom :
    (b : FanResult) (n : ℕ) (rs : List FanResult) → IsFrom b rs (collect_broadcast (some b) n rs)
unfolding collect_broadcast
collect-IsFrom b n [] = inl refl
collect-IsFrom b n (r ∷ rs) = elim (Bool-cases (is_ok r.status)) [
  | inl e ↦ rw e tt
  | inr e ↦
      let k = if is_unanswered r.status then n + 1 else n in
      let c = better_fallback (some b) r in
      rw e (IsFrom-cons b c r rs _ (fallback-either b r) (collect-IsFrom c k rs))
]

-- `b` is an answer if `r` is one, and has a status if `r` has one.
abbrev pub IsPreferred : FanResult → FanResult → Type 0
IsPreferred b r =
    ((is_unanswered b.status ≡ false) ⊎ (is_unanswered r.status ≡ true))
    × ((is_some b.status ≡ true) ⊎ (is_some r.status ≡ false))

rank-IsPreferred :
    (s t : Option ℕ)
    → fan_rank t ≤ fan_rank s
    → ((is_unanswered s ≡ false) ⊎ (is_unanswered t ≡ true))
      × ((is_some s ≡ true) ⊎ (is_some t ≡ false))
unfolding fan_rank
rank-IsPreferred none none h = (inr refl, inr refl)
rank-IsPreferred (some a) none h = (inr refl, inl refl)
rank-IsPreferred none (some b) h = absurd (ground arith)
rank-IsPreferred (some a) (some b) h = elim (Bool-cases (is_unanswered (some b))) [
  | inl e ↦ (inr e, inl refl)
  | inr e ↦ elim (Bool-cases (is_unanswered (some a))) [
    | inr g ↦ (inl g, inl refl)
    | inl g ↦ absurd (omega (arith, rw (e, g) at h))
  ]
]

-- What a broadcast to nodes with these results ends with: a success, or one of the failures that none is
-- preferred to, and the number of nodes that did not answer.
abbrev pub IsOutcome : List FanResult → Broadcast → Type 0
IsOutcome rs (succeeded r) = Among r rs × (is_ok r.status ≡ true)
IsOutcome rs (all_failed none m) = (rs ≡ []) × (m ≡ 0)
IsOutcome rs (all_failed (some b) m) =
    Among b rs
    × All (λ r. (is_ok r.status ≡ false) × IsPreferred b r) rs
    × (m ≡ count_unanswered rs)

preferred :
    (b : FanResult) (rs : List FanResult)
    → All (λ r. (is_ok r.status ≡ false) × (fan_rank r.status ≤ fan_rank b.status)) rs
    → All (λ r. (is_ok r.status ≡ false) × IsPreferred b r) rs
preferred b [] h = tt
preferred b (r ∷ rs) h = ((h.0.0, rank-IsPreferred b.status r.status h.0.1), preferred b rs h.1)

broadcast-IsOutcome :
    (r : FanResult) (rs : List FanResult) (x : Broadcast)
    → IsCollected (r ∷ rs) 0 x
    → IsFrom r (r ∷ rs) x
    → IsOutcome (r ∷ rs) x
broadcast-IsOutcome r rs (succeeded y) h m = h
broadcast-IsOutcome r rs (all_failed none k) h m = elim m [ ]
broadcast-IsOutcome r rs (all_failed (some b) k) h (inl e) =
    (inl e, preferred b (r ∷ rs) h.0, omega (arith, h.1))
broadcast-IsOutcome r rs (all_failed (some b) k) h (inr m) =
    (m, preferred b (r ∷ rs) h.0, omega (arith, h.1))

-- A broadcast ends with a success if any node accepts the transaction, else with one of the failures,
-- an answer before a withheld status and that before an error, and with the number of nodes whose
-- result is one of the last two.
pub collect_broadcast-IsOutcome : (rs : List FanResult) → IsOutcome rs (collect_broadcast none 0 rs)
unfolding collect_broadcast
collect_broadcast-IsOutcome [] = (refl, refl)
collect_broadcast-IsOutcome (r ∷ rs) = elim (Bool-cases (is_ok r.status)) [
  | inl e ↦ rw e (inl refl, e)
  | inr e ↦
      let k = if is_unanswered r.status then 0 + 1 else 0 in
      let (h, a) = collect-IsCollected r k rs in
      rw e (
        broadcast-IsOutcome r rs _
          (IsCollected-cons 0 k r r rs _ e (counted 0 (is_unanswered r.status)) (omega arith) h a)
          (IsFrom-cons r r r rs _ (inl refl) (collect-IsFrom r k rs)))
]
