-- ===== src/Domain/Path/Best.antt =====
-- The loop of the path policy: the best of the alive paths, the first of equals.
use algod_loadb_mesh.Base.{
  ℕ, suc, ◌+◌, ◌≡◌, sym, ◌∙◌, true, false, false≢true, Option, none, some, List, [], ◌∷◌, arith,
  if◌then◌else◌, if_cases, get_elem?, All,
}
use algod_loadb_mesh.Domain.Path.{PathStat, better, prefer, best_path}

-- `best` is an alive path of the list, at its index.
abbrev pub IsAlive : List PathStat → Option (ℕ × PathStat) → Type 0
IsAlive stats none = Unit {0}
IsAlive stats (some (i, s)) = (get_elem? stats i ≡ some s) × (s.alive ≡ true)

-- No alive path read so far is better.
abbrev pub NoBetter : Option (ℕ × PathStat) → PathStat → Type 0
NoBetter none s = s.alive ≡ false
NoBetter (some (i, b)) s = s.alive ≡ true → better s b ≡ false

better_trans : (a b c : PathStat) → better b a ≡ false → better c b ≡ false → better c a ≡ false
better_trans a b c h k = ground arith

-- The suffix of the list from index `i` on is `ss`.
abbrev IsSuffix : List PathStat → ℕ → List PathStat → Type 0
IsSuffix stats i ss = (j : ℕ) → get_elem? stats (i + j) ≡ get_elem? ss j

suffix-tail :
    (stats : List PathStat) (i : ℕ) (s : PathStat) (ss : List PathStat)
    → IsSuffix stats i (s ∷ ss)
    → IsSuffix stats (suc i) ss
suffix-tail stats i s ss h j = let e : suc i + j ≡ i + suc j = omega arith in rw e (h (suc j))

pub best_path-IsAlive :
    (stats : List PathStat) (best : Option (ℕ × PathStat)) (i : ℕ) (ss : List PathStat)
    → IsSuffix stats i ss
    → IsAlive stats best
    → IsAlive stats (best_path best i ss)
unfolding best_path
best_path-IsAlive stats best i [] sub h = h
best_path-IsAlive stats best i (s ∷ ss) sub h =
    best_path-IsAlive stats (if s.alive then prefer best i s else best) (suc i) ss
      (suffix-tail stats i s ss sub) (step best h)
  where
    here : get_elem? stats i ≡ some s
    here = let e : i + 0 ≡ i = omega arith in rw e at (sub 0)

    step :
        (best : Option (ℕ × PathStat))
        → IsAlive stats best
        → IsAlive stats (if s.alive then prefer best i s else best)
    step none h = if_cases (IsAlive stats) s.alive (λ e. (here, e)) (λ e. tt)
    step (some (j, t)) h =
        if_cases (IsAlive stats) s.alive
          (λ e. if_cases (IsAlive stats) (better s t) (λ k. (here, e)) (λ k. h)) (λ e. h)

prefer-NoBetter :
    (best : Option (ℕ × PathStat)) (i : ℕ) (s r : PathStat)
    → NoBetter best r
    → NoBetter (if s.alive then prefer best i s else best) r
prefer-NoBetter none i s r h =
    if_cases (λ b. NoBetter b r) s.alive (λ e k. absurd (false≢true (sym h ∙ k))) (λ e. h)
prefer-NoBetter (some (j, t)) i s r h =
    if_cases (λ b. NoBetter b r) s.alive
      (λ e.
        if_cases (λ b. NoBetter b r) (better s t) (λ k a. let h' = h a in ground arith) (λ k. h))
      (λ e. h)

prefer-NoBetter_self :
    (best : Option (ℕ × PathStat)) (i : ℕ) (s : PathStat)
    → NoBetter (if s.alive then prefer best i s else best) s
prefer-NoBetter_self none i s = if_cases (λ b. NoBetter b s) s.alive (λ e a. ground arith) (λ e. e)
prefer-NoBetter_self (some (j, t)) i s =
    if_cases (λ b. NoBetter b s) s.alive
      (λ e. if_cases (λ b. NoBetter b s) (better s t) (λ k a. ground arith) (λ k a. k))
      (λ e a. absurd (false≢true (sym e ∙ a)))

best_path-keeps :
    (best : Option (ℕ × PathStat)) (i : ℕ) (ss : List PathStat) (r : PathStat)
    → NoBetter best r
    → NoBetter (best_path best i ss) r
unfolding best_path
best_path-keeps best i [] r h = h
best_path-keeps best i (s ∷ ss) r h =
    best_path-keeps (if s.alive then prefer best i s else best) (suc i) ss r
      (prefer-NoBetter best i s r h)

pub best_path-NoBetter :
    (best : Option (ℕ × PathStat)) (i : ℕ) (ss : List PathStat)
    → All (NoBetter (best_path best i ss)) ss
unfolding best_path
best_path-NoBetter best i [] = tt
best_path-NoBetter best i (s ∷ ss) =
    let next = if s.alive then prefer best i s else best in
    (
      best_path-keeps next (suc i) ss s (prefer-NoBetter_self best i s),
      best_path-NoBetter next (suc i) ss,
    )
