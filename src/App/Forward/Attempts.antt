-- ===== src/App/Forward/Attempts.antt =====
-- A request is sent again only while the client has nothing of an answer.
use algod_loadb_mesh.Base.{
  ℕ, suc, ◌+◌, ◌≤◌, ◌<◌, ◌≡◌, refl, sym, ap, ◌∙◌, inl, inr, true, false, not, ◌&&◌, Option, none,
  some, List, [], ◌∷◌, arith, ltb, ◌==◌, Bool-cases, length, take, List-cases,
}
use algod_loadb_mesh.App.Forward.{
  Attempt, Env, Answer, stop_external, stop_at, Tried, sent_to, try_from,
}
use algod_loadb_mesh.App.Stats.{has_failed}
use algod_loadb_mesh.Domain.Request.{RequestClass}
use algod_loadb_mesh.Domain.Upstream.{Upstream}

-- Nothing of an attempt reached the client, who waits for an answer.
abbrev pub IsUnanswered : Attempt → Type 0
IsUnanswered a =
    (has_failed a.out ≡ true) × (a.out.headers_sent ≡ false) × (a.gone ≡ false) × (a.cut ≡ false)

pub stop_at-none : (class : RequestClass) (a : Attempt) → stop_at class a ≡ none → IsUnanswered a
stop_at-none class a e = ground arith

pub stop_external-none : (a : Attempt) → stop_external a ≡ none → IsUnanswered a
stop_external-none a e = ground arith

module _ {R : Type 0} (class : RequestClass) (env : Env R) where
  -- Every attempt from `k` on but for the last of `n`.
  abbrev pub AllRetried : ℕ → ℕ → Type 0
  AllRetried k n = (i : ℕ) → k ≤ i → i + 1 < k + n → IsUnanswered (env.forward i)

  -- What the loop from attempt `k` on leaves: the attempts before the last had no answer, the last is
  -- the last one recorded, and what stopped it is the last one's; a prefix of the upstreams was tried.
  pub record IsTried (k : ℕ) (last : Attempt) (us : List (Upstream R)) (t : Tried R) : Type 0 where
    pub retried : AllRetried k (length t.sent)
    pub sent_prefix : t.sent ≡ take (length t.sent) us
    pub last_none : t.sent ≡ [] → (t.last ≡ last) × (t.stop ≡ none)
    pub last_some :
        (m : ℕ)
        → length t.sent ≡ suc m
        → (t.last ≡ env.forward (k + m)) × (t.stop ≡ stop_at class t.last)

  module _ (k : ℕ) (last : Attempt) (u : Upstream R) (us : List (Upstream R)) (rest : Tried R)
      (ih : IsTried (suc k) (env.forward k) us rest) where
    same_attempt : (i : ℕ) → i ≡ k → IsUnanswered (env.forward k) → IsUnanswered (env.forward i)
    same_attempt i e h = rw e h

    first_or_later :
        IsUnanswered (env.forward k)
        → (i : ℕ) → k ≤ i
        → i + 1 < k + suc (length rest.sent)
        → IsUnanswered (env.forward i)
    first_or_later h i a b = elim (Bool-cases (i == k)) [
      | inl e ↦ same_attempt i (ground arith) h
      | inr e ↦ ih.retried i (ground arith) (omega arith)
    ]

    last_of :
        stop_at class (env.forward k) ≡ none
        → (m : ℕ) → length rest.sent ≡ m
        → (rest.last ≡ env.forward (k + m)) × (rest.stop ≡ stop_at class rest.last)
    last_of e m q = elim (List-cases rest.sent) [
      | inl z ↦
          let (a, b) = ih.last_none z in
          let here : k + m ≡ k = ground arith in (rw here a, b ∙ sym (rw a e))
      | inr (x, xs, z) ↦
          let (a, b) = ih.last_some (length xs) (ap length z) in
          let there : suc k + length xs ≡ k + m = ground arith in (rw there at a, b)
    ]

    attempted :
        (x : Option Answer)
        → stop_at class (env.forward k) ≡ x
        → IsTried k last (u ∷ us) (sent_to u (env.forward k) x rest)
    attempted (some x) e = record {
      retried = λ i a b. absurd (omega arith);
      sent_prefix = refl;
      last_none = λ q. cc;
      last_some = λ m q. let here : k + m ≡ k = omega arith in (rw here refl, sym e);
    }
    attempted none e = record {
      retried = first_or_later (stop_at-none class (env.forward k) e);
      sent_prefix = ap (λ r. u ∷ r) ih.sent_prefix;
      last_none = λ q. cc;
      last_some = λ m q. last_of e m (omega arith);
    }

  pub try_from-IsTried :
      (k : ℕ) (last : Attempt) (us : List (Upstream R))
      → IsTried k last us (try_from class env k last us)
  unfolding try_from
  try_from-IsTried k last [] = record {
    retried = λ i a b. absurd (omega arith);
    sent_prefix = refl;
    last_none = λ e. (refl, refl);
    last_some = λ m e. absurd (omega arith);
  }
  try_from-IsTried k last (u ∷ us) = elim (Bool-cases (ltb 0 k && not (env.time_left k))) [
    | inl late ↦ rw late (record {
      retried = λ i a b. absurd (omega arith);
      sent_prefix = refl;
      last_none = λ e. (refl, refl);
      last_some = λ m e. absurd (omega arith);
    })
    | inr on_time ↦ rw on_time (
        attempted k last u us (try_from class env (suc k) (env.forward k) us)
          (try_from-IsTried (suc k) (env.forward k) us) (stop_at class (env.forward k)) refl)
  ]
