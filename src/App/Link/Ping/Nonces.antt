-- ===== src/App/Link/Ping/Nonces.antt =====
-- The nonces of the outstanding pings, as `checkPaths` hands them out.
use algod_loadb_mesh.Base.{
  ℕ, ◌+◌, ◌≤◌, ◌<◌, max, ◌≡◌, refl, ◌≢◌, ◌⊎◌, inl, inr, true, false, List, [], ◌∷◌, arith,
  Bool-cases, Time, length, keep, All, word, add_word, add_word-small,
}
use algod_loadb_mesh.App.Link.{PathState, Link}
use algod_loadb_mesh.App.Link.Ping.{answers, lose, is_due, Job, ping_paths}
use algod_loadb_mesh.App.Options.{DirectoryOptions}

-- No two outstanding pings of the paths share a nonce.
abbrev Differs : PathState → PathState → Type 0
Differs p q = p.nonce ≢ 0 → p.nonce ≢ q.nonce

abbrev pub IsDistinct : List PathState → Type 0
IsDistinct [] = Unit
IsDistinct (p ∷ ps) = All (Differs p) ps × IsDistinct ps

abbrev pub IsIssued : ℕ → List PathState → Type 0
IsIssued k ps = All (λ p. p.nonce ≤ k) ps

module _ (o : DirectoryOptions) (l : Link) (now : Time) where
  lose-nonce : (p : PathState) → ((lose o now p).nonce ≡ 0) ⊎ ((lose o now p).nonce ≡ p.nonce)
  lose-nonce p = ground arith

  -- A ping that is sent has a nonce that no earlier ping has, a path without one keeps its own.
  abbrev IsLater : ℕ → ℕ → PathState → PathState → Type 0
  IsLater k last p q = ((q.nonce ≡ 0) ⊎ (q.nonce ≡ p.nonce)) ⊎ ((k < q.nonce) × (q.nonce ≤ last))

  abbrev AllLater : ℕ → ℕ → List PathState → List PathState → Type 0
  AllLater k last [] [] = Unit
  AllLater k last (p ∷ ps) (q ∷ qs) = IsLater k last p q × AllLater k last ps qs
  AllLater k last _ _ = ⊥

  AllLater-weaken :
      (j k last : ℕ) (ps qs : List PathState)
      → j ≤ k
      → AllLater k last ps qs
      → AllLater j last ps qs
  AllLater-weaken j k last [] [] h a = tt
  AllLater-weaken j k last [] (q ∷ qs) h a = a
  AllLater-weaken j k last (p ∷ ps) [] h a = a
  AllLater-weaken j k last (p ∷ ps) (q ∷ qs) h a =
      (ground arith, AllLater-weaken j k last ps qs h a.1)

  -- The counter and the paths after the loop.
  abbrev after : ℕ → List PathState → ℕ × (List PathState × List Job)
  after k ps = ping_paths o l now k ps

  after-AllLater :
      (k : ℕ) (ps : List PathState)
      → k + length ps < word
      → (k ≤ (after k ps).0)
        × ((after k ps).0 ≤ k + length ps)
        × AllLater k (after k ps).0 ps (after k ps).1.0
  unfolding ping_paths
  after-AllLater k [] h = (omega arith, omega arith, tt)
  after-AllLater k (p ∷ ps) h = elim (Bool-cases (is_due o now (lose o now p))) [
    | inl d ↦
        let e = add_word-small k 1 (omega arith) in
        let (a, b, c) = after-AllLater (add_word k 1) ps (omega arith) in
        rw d (
          omega arith,
          omega arith,
          (inr (omega arith, a), AllLater-weaken k (add_word k 1) _ ps _ (omega arith) c),
        )
    | inr d ↦
        let (a, b, c) = after-AllLater k ps (omega arith) in
        rw d (a, omega arith, (inl (lose-nonce p), c))
  ]

  Differs-all :
      (k last : ℕ) (p q : PathState) (ps qs : List PathState)
      → p.nonce ≤ k
      → IsLater k last p q
      → All (Differs p) ps
      → IsIssued k ps
      → AllLater (max k q.nonce) last ps qs
      → All (Differs q) qs
  Differs-all k last p q [] [] b x d i a = tt
  Differs-all k last p q [] (r ∷ rs) b x d i a = elim a [ ]
  Differs-all k last p q (s ∷ ss) [] b x d i a = tt
  Differs-all k last p q (s ∷ ss) (r ∷ rs) b x d i a =
      (ground arith, Differs-all k last p q ss rs b x d.1 i.1 a.1)

  AllLater-IsIssued :
      (k last : ℕ) (ps qs : List PathState)
      → k ≤ last
      → IsIssued k ps
      → AllLater k last ps qs
      → IsIssued last qs
  AllLater-IsIssued k last [] [] h i a = tt
  AllLater-IsIssued k last [] (r ∷ rs) h i a = elim a [ ]
  AllLater-IsIssued k last (s ∷ ss) [] h i a = tt
  AllLater-IsIssued k last (s ∷ ss) (r ∷ rs) h i a =
      (ground arith, AllLater-IsIssued k last ss rs h i.1 a.1)

  IsIssued-weaken : (j k : ℕ) (ps : List PathState) → j ≤ k → IsIssued j ps → IsIssued k ps
  IsIssued-weaken j k [] h i = tt
  IsIssued-weaken j k (p ∷ ps) h i = (omega (arith, i.0), IsIssued-weaken j k ps h i.1)

  -- The loop keeps the nonces of a link apart, and below the counter.
  pub ping_paths-IsDistinct :
      (k : ℕ) (ps : List PathState)
      → k + length ps < word
      → IsIssued k ps
      → IsDistinct ps
      → IsDistinct (ping_paths o l now k ps).1.0
        × IsIssued (ping_paths o l now k ps).0 (ping_paths o l now k ps).1.0
        × (k ≤ (ping_paths o l now k ps).0)
        × ((ping_paths o l now k ps).0 ≤ k + length ps)
  unfolding ping_paths
  ping_paths-IsDistinct k [] h i d = (tt, tt, omega arith, omega arith)
  ping_paths-IsDistinct k (p ∷ ps) h i d = elim (Bool-cases (is_due o now (lose o now p))) [
    | inl due ↦
        let e = add_word-small k 1 (omega arith) in
        let up = IsIssued-weaken k (add_word k 1) ps (omega arith) i.1 in
        let (a, b, c) = after-AllLater (add_word k 1) ps (omega arith) in
        let (x, y, z, w) = ping_paths-IsDistinct (add_word k 1) ps (omega arith) up d.1 in
        rw due (
          (
            Differs-all k _ p (record (lose o now p) { nonce = add_word k 1; pinged_at = now }) ps _
                i.0 (inr (omega arith, a)) d.0 i.1
                (AllLater-weaken (max k (add_word k 1)) (add_word k 1) _ ps _ (omega arith) c),
            x,
          ),
          (a, y),
          omega arith,
          omega arith,
        )
    | inr due ↦
        let (a, b, c) = after-AllLater k ps (omega arith) in
        let (x, y, z, w) = ping_paths-IsDistinct k ps (omega arith) i.1 d.1 in
        let low : (lose o now p).nonce ≤ k = ground (arith, lose-nonce p) in
        rw due (
          (
            Differs-all k _ p (lose o now p) ps _ i.0 (inl (lose-nonce p)) d.0 i.1
                (AllLater-weaken (max k (lose o now p).nonce) k _ ps _ (omega arith) c),
            x,
          ),
          (omega arith, y),
          z,
          omega arith,
        )
  ]

alone :
    (n : ℕ) (p : PathState) (ps : List PathState)
    → answers n p ≡ true
    → All (Differs p) ps
    → keep (answers n) ps ≡ []
alone n p [] e d = refl
alone n p (q ∷ qs) e d =
    let rest = alone n p qs e d.1 in
    let other : answers n q ≡ false = ground (arith, d.0) in rw other rest

-- Of paths whose nonces are apart, one at most takes a pong for its own.
pub IsDistinct-one :
    (n : ℕ) (ps : List PathState) → IsDistinct ps → length (keep (answers n) ps) ≤ 1
IsDistinct-one n [] d = omega arith
IsDistinct-one n (p ∷ ps) d = elim (Bool-cases (answers n p)) [
  | inl e ↦ rw e (rw (alone n p ps e d.0) (omega arith))
  | inr e ↦ rw e (IsDistinct-one n ps d.1)
]
