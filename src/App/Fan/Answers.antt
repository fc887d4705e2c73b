-- ===== src/App/Fan/Answers.antt =====
-- The answer that a client gets when several nodes were asked.
use algod_loadb_mesh.Base.{
  ℕ, zero, suc, ◌≤◌, ◌<◌, ◌≡◌, refl, sym, ap, ◌∙◌, ◌≢◌, ◌⊎◌, inl, inr, Bool, true, false,
  false≢true, Option, none, some, List, [], ◌∷◌, arith, leb, ◌==◌, Bool-cases, Bytes, eqb, eqb_refl,
  eq_of_eqb, All, Among,
}
use algod_loadb_mesh.App.Fan.{
  FanResult, pending_confirmed, body_rank, status_rank, rank_of, pending_rank, position, Heard,
  answer, grace_over, outranks, better_answer, collect,
}

-- The answers that are heard.
abbrev pub answers_of : List Heard → List FanResult
answers_of [] = []
answers_of (grace_over ∷ hs) = answers_of hs
answers_of (answer r ∷ hs) = r ∷ answers_of hs

abbrev pub has_grace : List Heard → Bool
has_grace [] = false
has_grace (grace_over ∷ hs) = true
has_grace (answer r ∷ hs) = has_grace hs

module _ (decode : FanResult → Option (ℕ × Bytes)) (order : List Bytes) where
  rank-le : (r : FanResult) → pending_rank decode r ≤ pending_confirmed
  unfolding pending_rank
  rank-le r = of_status r.status (decode r)
    where
      of_status : (s : Option ℕ) (b : Option (ℕ × Bytes)) → rank_of s (body_rank b) ≤ 5
      of_status none b = omega arith
      of_status (some n) none = ground arith
      of_status (some n) (some (round, error)) = ground arith

  -- `c` is chosen before `r`: it says more, or as much and is confirmed or ahead in the order.
  abbrev IsAhead : FanResult → FanResult → Type 0
  IsAhead c r =
      (pending_rank decode r < pending_rank decode c)
      ⊎ ((pending_rank decode r ≡ pending_rank decode c)
          × ((pending_rank decode c ≡ 5) ⊎ (position c.id order ≤ position r.id order)))

  IsAhead-refl : (r : FanResult) → IsAhead r r
  IsAhead-refl r = inr (refl, inr (omega arith))

  IsAhead-trans : (a b c : FanResult) → IsAhead a b → IsAhead b c → IsAhead a c
  IsAhead-trans a b c h k = ground arith

  better-IsAhead :
      (o : FanResult) (r : FanResult)
      → IsAhead (better_answer decode order (some o) r) o
        × IsAhead (better_answer decode order (some o) r) r
  better-IsAhead o r = elim (Bool-cases (outranks decode order r o)) [
    | inl e ↦ rw e (ground arith, IsAhead-refl r)
    | inr e ↦ rw e (IsAhead-refl o, ground arith)
  ]

  all-IsAhead :
      (c : FanResult) (rs : List FanResult) → pending_rank decode c ≡ 5 → All (IsAhead c) rs
  all-IsAhead c [] e = tt
  all-IsAhead c (r ∷ rs) e = (ground (arith, rank-le r), all-IsAhead c rs e)

  better-either :
      (o r : FanResult)
      → (better_answer decode order (some o) r ≡ o) ⊎ (better_answer decode order (some o) r ≡ r)
  better-either o r = elim (Bool-cases (outranks decode order r o)) [
    | inl e ↦ rw e (inr refl)
    | inr e ↦ rw e (inl refl)
  ]

  -- The answer that is chosen of `b` and the answers to come.
  abbrev IsChosenOf : FanResult → List FanResult → FanResult → Type 0
  IsChosenOf b rs c = ((c ≡ b) ⊎ Among c rs) × IsAhead c b × All (IsAhead c) rs

  chosen-cons :
      (b r x c : FanResult) (rs : List FanResult)
      → (x ≡ b) ⊎ (x ≡ r)
      → IsAhead x b
      → IsAhead x r
      → IsChosenOf x rs c
      → IsChosenOf b (r ∷ rs) c
  chosen-cons b r x c rs e p q (m, h, w) =
      (from e m, IsAhead-trans c x b h p, (IsAhead-trans c x r h q, w))
    where
      from : (x ≡ b) ⊎ (x ≡ r) → (c ≡ x) ⊎ Among c rs → (c ≡ b) ⊎ Among c (r ∷ rs)
      from e (inr m) = inr (inr m)
      from (inl e) (inl m) = inl (m ∙ e)
      from (inr e) (inl m) = inr (inl (m ∙ e))

  collect-IsChosenOf :
      (b : FanResult) (hs : List Heard)
      → has_grace hs ≡ false
      → (c : FanResult) × (collect decode order (some b) hs ≡ some c)
        × IsChosenOf b (answers_of hs) c
  unfolding collect
  collect-IsChosenOf b [] g = (b, refl, (inl refl, IsAhead-refl b, tt))
  collect-IsChosenOf b (grace_over ∷ hs) g = cc
  collect-IsChosenOf b (answer r ∷ hs) g =
      let x = better_answer decode order (some b) r in
      let (p, q) = better-IsAhead b r in
      elim (Bool-cases (pending_rank decode x == pending_confirmed)) [
        | inl e ↦
            let top : pending_rank decode x ≡ 5 = ground arith in
            rw e (
              x,
              refl,
              chosen-cons b r x x (answers_of hs) (better-either b r) p q
                  (inl refl, IsAhead-refl x, all-IsAhead x (answers_of hs) top),
            )
        | inr e ↦
            let (c, y, w) = collect-IsChosenOf x hs g in
            rw e (c, y, chosen-cons b r x c (answers_of hs) (better-either b r) p q w)
      ]

-- What an answer says of the transaction.
pub data Verdict : Type 0 where
  says_nothing says_else says_unknown says_pooled says_dropped says_confirmed : Verdict

-- The preference among them.
abbrev pub place : Verdict → ℕ
place says_nothing = 0
place says_else = 1
place says_unknown = 2
place says_pooled = 3
place says_dropped = 4
place says_confirmed = 5

-- An error, an outage or a throttled node says nothing; a body that cannot be read counts as that of a
-- transaction in the pool.
pub data Says (decode : FanResult → Option (ℕ × Bytes)) (r : FanResult) : Verdict → Type 0 where
  by_error : r.status ≡ none → Says decode r says_nothing
  by_outage : (n : ℕ) → r.status ≡ some n → 500 ≤ n → Says decode r says_nothing
  by_throttle : r.status ≡ some 429 → Says decode r says_nothing
  by_not_found : r.status ≡ some 404 → Says decode r says_unknown
  by_other :
      (n : ℕ) → r.status ≡ some n → n < 500 → n ≢ 429 → n ≢ 404 → n ≢ 200 → Says decode r says_else
  by_unread : r.status ≡ some 200 → decode r ≡ none → Says decode r says_pooled
  by_pool : r.status ≡ some 200 → decode r ≡ some (0, []) → Says decode r says_pooled
  by_drop :
      (e : Bytes)
      → r.status ≡ some 200
      → decode r ≡ some (0, e)
      → e ≢ []
      → Says decode r says_dropped
  by_block :
      (n : ℕ) (e : Bytes)
      → r.status ≡ some 200
      → decode r ≡ some (n, e)
      → 0 < n
      → Says decode r says_confirmed

module _ (decode : FanResult → Option (ℕ × Bytes)) (order : List Bytes) where
  abbrev Judged : FanResult → ℕ → Type 0
  Judged r n = (v : Verdict) × Says decode r v × (n ≡ place v)

  body-Judged :
      (r : FanResult) (d : Option (ℕ × Bytes))
      → r.status ≡ some 200
      → decode r ≡ d
      → Judged r (body_rank d)
  body-Judged r none s e = (says_pooled, by_unread s e, refl)
  body-Judged r (some (zero, msg)) s e = elim (Bool-cases (eqb msg [])) [
    | inl m ↦
        let none_given = eq_of_eqb msg [] m in
        rw m (says_pooled, by_pool s (e ∙ ap (λ x. some (0, x)) none_given), refl)
    | inr m ↦ rw m (
      says_dropped,
      by_drop msg s e (λ q. false≢true (sym m ∙ ap (λ x. eqb x []) q ∙ eqb_refl [])),
      refl,
    )
  ]
  body-Judged r (some (suc n, msg)) s e =
      (says_confirmed, by_block (suc n) msg s e (omega arith), ground arith)

  served-Judged :
      (r : FanResult) (n : ℕ)
      → r.status ≡ some n
      → (n == 429) ≡ false
      → leb 500 n ≡ false
      → Judged r (status_rank n (body_rank (decode r)))
  served-Judged r n s a b = elim (Bool-cases (n == 404)) [
    | inl c ↦
        let e : n ≡ 404 = ground arith in (says_unknown, by_not_found (s ∙ ap some e), ground arith)
    | inr c ↦ elim (Bool-cases (n == 200)) [
      | inl d ↦
          let e : n ≡ 200 = ground arith in
          let (v, w, q) = body-Judged r (decode r) (s ∙ ap some e) refl in (v, w, ground (arith, q))
      | inr d ↦ (
        says_else,
        by_other n s (ground arith) (λ q. ground arith) (λ q. ground arith) (λ q. ground arith),
        ground arith,
      )
    ]
  ]

  status-Judged :
      (r : FanResult) (t : Option ℕ) → r.status ≡ t → Judged r (rank_of t (body_rank (decode r)))
  status-Judged r none s = (says_nothing, by_error s, refl)
  status-Judged r (some n) s = elim (Bool-cases (leb 500 n)) [
    | inl a ↦ (says_nothing, by_outage n s (ground arith), ground arith)
    | inr a ↦ elim (Bool-cases (n == 429)) [
      | inl b ↦
          let e : n ≡ 429 = ground arith in
          (says_nothing, by_throttle (s ∙ ap some e), ground arith)
      | inr b ↦ served-Judged r n s b a
    ]
  ]

  rank-Judged : (r : FanResult) → Judged r (pending_rank decode r)
  unfolding pending_rank
  rank-Judged r = status-Judged r r.status refl

  -- `c` is no worse than `r`: it says more, or the same, and then it is a confirmation or ahead in the
  -- order of the nodes.
  abbrev pub IsNoWorse : FanResult → Verdict → FanResult → Type 0
  IsNoWorse c v r =
      (y : Verdict) × Says decode r y
      × ((place y < place v)
          ⊎ ((place y ≡ place v)
              × ((v ≡ says_confirmed) ⊎ (position c.id order ≤ position r.id order))))

  top-place : (v : Verdict) → place v ≡ 5 → v ≡ says_confirmed
  top-place says_nothing e = absurd (omega (arith, e))
  top-place says_else e = absurd (omega (arith, e))
  top-place says_unknown e = absurd (omega (arith, e))
  top-place says_pooled e = absurd (omega (arith, e))
  top-place says_dropped e = absurd (omega (arith, e))
  top-place says_confirmed e = refl

  ahead-IsNoWorse :
      (c : FanResult) (v : Verdict) (r : FanResult)
      → pending_rank decode c ≡ place v
      → IsAhead decode order c r
      → IsNoWorse c v r
  ahead-IsNoWorse c v r e h =
      let (y, w, q) = rank-Judged r in
      elim h [
        | inl k ↦ (y, w, inl (omega (arith, e, q)))
        | inr (k, inl t) ↦
            (y, w, inr (omega (arith, e, q), inl (top-place v (omega (arith, e, t)))))
        | inr (k, inr t) ↦ (y, w, inr (omega (arith, e, q), inr t))
      ]

  all-IsNoWorse :
      (c : FanResult) (v : Verdict) (rs : List FanResult)
      → pending_rank decode c ≡ place v
      → All (IsAhead decode order c) rs
      → All (IsNoWorse c v) rs
  all-IsNoWorse c v [] e h = tt
  all-IsNoWorse c v (r ∷ rs) e h = (ahead-IsNoWorse c v r e h.0, all-IsNoWorse c v rs e h.1)

  -- While the grace period does not end the wait, the client of a pending lookup gets one of the
  -- answers, and no other says more: a confirmation before a pool error, that before a transaction in
  -- the pool, and then one not found, any other answer, and none. Of those that say the same, it is the
  -- one ahead in the order of the nodes, unless they are confirmations.
  pub collect-IsBest :
      (r : FanResult) (hs : List Heard)
      → has_grace hs ≡ false
      → (c : FanResult) × (collect decode order none (answer r ∷ hs) ≡ some c)
        × Among c (r ∷ answers_of hs)
        × ((v : Verdict) × Says decode c v × All (IsNoWorse c v) (r ∷ answers_of hs))
  unfolding collect
  collect-IsBest r hs g = elim (Bool-cases (pending_rank decode r == pending_confirmed)) [
    | inl e ↦
        let top : pending_rank decode r ≡ 5 = ground arith in
        let (v, w, q) = rank-Judged r in
        rw e (
          r,
          refl,
          inl refl,
          (
            v,
            w,
            all-IsNoWorse r v (r ∷ answers_of hs) q
                (IsAhead-refl decode order r, all-IsAhead decode order r (answers_of hs) top),
          ),
        )
    | inr e ↦
        let (c, p, (m, h, w)) = collect-IsChosenOf decode order r hs g in
        let (v, x, q) = rank-Judged c in
        rw e (c, p, m, (v, x, all-IsNoWorse c v (r ∷ answers_of hs) q (h, w)))
  ]
