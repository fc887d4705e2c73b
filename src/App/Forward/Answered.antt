-- ===== src/App/Forward/Answered.antt =====
-- A client always gets an answer, and no more attempts than there are upstreams.
use algod_loadb_mesh.Base.{
  ℕ, zero, suc, ◌+◌, ◌≤◌, ◌<◌, ◌≡◌, refl, sym, ap, ◌∙◌, subst, ◌≢◌, inl, inr, Bool, true, false,
  ◌&&◌, Option, none, some, List, [], ◌∷◌, ◌++◌, arith, ◌==◌, if◌then◌else◌, Bool-cases, if_cases,
  cut, length, take, length-append, List-cases, ℤ, pos, negsuc, Float,
}
use algod_loadb_mesh.App.Forward.{
  Attempt, Env, nothing, Answer, settled, failure, answer_failure, is_settled, stop_external,
  stop_at, Tried, Forwarded, budgeted, tries_of, try_from, give_up, sent_external, then_external,
  after_tries, forward_selected,
}
use algod_loadb_mesh.App.Forward.Attempts.{
  IsUnanswered, stop_at-none, AllRetried, IsTried, try_from-IsTried,
}
use algod_loadb_mesh.App.Router.{RouterOptions, external_fallback}
use algod_loadb_mesh.Domain.Request.{RequestClass}
use algod_loadb_mesh.Domain.Select.{Selection}
use algod_loadb_mesh.Domain.Upstream.{Upstream}

failure_written :
    (class : RequestClass) (a : Attempt)
    → is_settled a ≡ false
    → failure (answer_failure class a) ≢ failure nothing
unfolding answer_failure
failure_written class a h e = ground arith

nil_of_length : {A : Type 0} (l : List A) → length l ≡ 0 → l ≡ []
nil_of_length [] e = refl
nil_of_length (x ∷ xs) e = absurd (omega arith)

take-le : {A : Type 0} (n : ℕ) (xs : List A) → length (take n xs) ≤ length xs
take-le zero xs = omega arith
take-le (suc n) [] = omega arith
take-le (suc n) (x ∷ xs) = omega (arith, take-le n xs)

module _ {R : Type 0} (class : RequestClass) (env : Env R) where
  -- The client has an answer in the end: the last attempt's, or one that this agent writes.
  abbrev pub IsAnswered : Forwarded R → Type 0
  IsAnswered x = is_settled x.last ≡ false → (x.answer ≢ settled) × (x.answer ≢ failure nothing)

  stop_at-settled :
      (a : Attempt) (x : Answer)
      → stop_at class a ≡ some x
      → is_settled a ≡ false
      → (x ≢ settled) × (x ≢ failure nothing)
  stop_at-settled a x e h = let w = failure_written class a h in ground arith

  give_up-IsAnswered :
      (cut : Bool) (sent : List (Upstream R)) (last : Attempt)
      → IsAnswered (give_up class cut sent last)
  give_up-IsAnswered true sent last h = (λ e. cc, λ e. cc)
  give_up-IsAnswered false sent last h = (λ e. cc, failure_written class last h)

  -- The attempts, and their answer.
  abbrev pub IsForwarded : ℕ → Forwarded R → Type 0
  IsForwarded n x = (length x.sent ≤ n) × AllRetried class env 0 (length x.sent) × IsAnswered x

  module _ (n : ℕ) (t : Tried R) (zero_attempt : Attempt) (us : List (Upstream R))
      (ih : IsTried class env 0 zero_attempt us t) (short : length t.sent ≤ n) where
    all-IsUnanswered : t.stop ≡ none → (i : ℕ) → i < length t.sent → IsUnanswered (env.forward i)
    all-IsUnanswered e i h = elim (Bool-cases (i + 1 == length t.sent)) [
      | inl l ↦
          let (a, b) = ih.last_some i (ground arith) in
          let here : 0 + i ≡ i = omega arith in
          rw here at
            (stop_at-none class (env.forward (0 + i)) (sym (ap (stop_at class) a) ∙ (sym b ∙ e)))
      | inr l ↦ ih.retried i (omega arith) (ground arith)
    ]

    kept : (cut : Bool) → IsForwarded (suc n) (give_up class cut t.sent t.last)
    kept cut = (omega arith, ih.retried, give_up-IsAnswered cut t.sent t.last)

    one_more : (ext : Upstream R) → length (t.sent ++ (ext ∷ [])) ≡ length t.sent + 1
    one_more ext = length-append t.sent (ext ∷ [])

    with_external :
        (ext : Upstream R) (x : Option Answer)
        → t.stop ≡ none
        → stop_external (env.forward (length t.sent)) ≡ x
        → IsForwarded (suc n) (sent_external class env t ext (env.forward (length t.sent)) x)
    with_external ext (some x) e k =
        let l = one_more ext in
        (omega arith, λ i a b. all-IsUnanswered e i (omega arith), λ h. ground arith)
    with_external ext none e k =
        let l = one_more ext in
        (
          omega arith,
          λ i a b. all-IsUnanswered e i (omega arith),
          give_up-IsAnswered env.cut_late (t.sent ++ (ext ∷ [])) (env.forward (length t.sent)),
        )

    externally :
        (late : Bool) (ext : Option (Selection R))
        → t.stop ≡ none
        → env.time_left_late ≡ late
        → IsForwarded (suc n) (then_external class env t ext)
    externally late none e k = kept env.cut_late
    externally true (some x) e k = rw k (with_external x.chosen _ e refl)
    externally false (some x) e k = rw k (kept env.cut_late)

    finally :
        (replay : Bool) (ext : Option (Selection R)) (x : Option Answer)
        → t.stop ≡ x
        → (length t.sent ≡ 0 → x ≡ none)
        → IsForwarded (suc n) (after_tries class env replay ext t x)
    finally replay ext (some x) e z = elim (List-cases t.sent) [
      | inl l ↦ absurd (let w = z (ap length l) in cc)
      | inr (y, ys, l) ↦
          let (a, b) = ih.last_some (length ys) (ap length l) in
          (omega arith, ih.retried, stop_at-settled t.last x (sym b ∙ e))
    ]
    finally replay ext none e z =
        if_cases (IsForwarded (suc n)) (replay && env.time_left (length t.sent))
          (λ k. externally env.time_left_late ext e refl) (λ k. kept env.cut_late)

module _ {R : Type 0} ⦃f : Float R⦄ (o : RouterOptions R) (budget : ℤ) (class : RequestClass)
    (env : Env R) (replay : Bool) (zero_attempt : Attempt) (s : Selection R) where
  tries-le : length (tries_of budget replay s) ≤ length s.alternates + 1
  unfolding tries_of
  tries-le = bound budget replay
    where
      bound :
          (b : ℤ) (r : Bool)
          → length (
              if r
              then budgeted b (s.chosen ∷ s.alternates)
              else take 1 (budgeted b (s.chosen ∷ s.alternates)))
            ≤ length s.alternates + 1
      bound (pos n) true = omega (arith, take-le n s.alternates)
      bound (pos n) false = omega arith
      bound (negsuc n) true = omega arith
      bound (negsuc n) false = omega arith

  -- A request is sent at most as often as its selection has upstreams, and once more. It is sent again
  -- only after an attempt that failed with nothing sent to a client who still waits and
  -- is within its quota. If the last attempt left the client without an answer, an answer is written.
  pub forward_selected_answers :
      IsForwarded class env
        (length s.alternates + 2)
        (forward_selected o budget class env replay zero_attempt s)
  unfolding forward_selected
  forward_selected_answers =
      let us = tries_of budget replay s in
      let t = try_from class env 0 zero_attempt us in
      let ih = try_from-IsTried class env 0 zero_attempt us in
      let sent : length t.sent ≤ length us =
        subst (λ (l : List (Upstream R)). length l ≤ length us) (sym ih.sent_prefix)
          (take-le (length t.sent) us) in
      let more : suc (length s.alternates + 1) ≡ length s.alternates + 2 = omega arith in
      rw more at (
        finally class env (length s.alternates + 1) t zero_attempt us ih (omega (arith, tries-le))
          replay (external_fallback o class us env.checked env.rnd) t.stop refl
          (λ z. (ih.last_none (nil_of_length t.sent z)).1))
