-- ===== src/App/Forward/Complete.antt =====
-- No upstream that could serve a request is left out before an error is given.
use mathlib.Core.List.Perm as Arranged
use mathlib.Core.List.{Mem, mem-cons_self, mem-cons_of_mem, mem-append_left}
use algod_loadb_mesh.Base.{
  ℕ, suc, ◌≡◌, refl, sym, ap, subst, inl, inr, Bool, true, false, not, ◌&&◌, ◌||◌, Option, none,
  some, List, [], ◌∷◌, arith, ltb, leb, ◌==◌, is_some, if_cases, length, Among, negsuc, Float,
  IsOrdered,
}
use algod_loadb_mesh.App.Forward.{
  Attempt, Env, Answer, stop_at, Tried, Forwarded, tries_of, try_from, sent_external, then_external,
  after_tries, forward_selected,
}
use algod_loadb_mesh.App.Router.{RouterOptions, sel, external_fallback}
use algod_loadb_mesh.Domain.Eligible.{eligible}
use algod_loadb_mesh.Domain.Request.{RequestClass}
use algod_loadb_mesh.Domain.Select.{Selection, score}
use algod_loadb_mesh.Domain.Select.Choice.{InRange}
use algod_loadb_mesh.Domain.Select.Picked.{scored_complete, scored-keep}
use algod_loadb_mesh.Domain.Select.Promise.{select_sound}
use algod_loadb_mesh.Domain.Upstream.{Upstream}

Mem-of_Among : {A : Type 0} (a : A) (xs : List A) → Among a xs → Mem a xs
Mem-of_Among a [] m = elim m [ ]
Mem-of_Among a (x ∷ xs) (inl e) = subst (λ b. Mem b (x ∷ xs)) (sym e) mem-cons_self
Mem-of_Among a (x ∷ xs) (inr m) = mem-cons_of_mem x (Mem-of_Among a xs m)

module _ {R : Type 0} (class : RequestClass) (env : Env R) where
  -- Every attempt fails before an answer is begun, by an error or by a status that is withheld. The
  -- client stays and the limiter does not cut the request short, no deadline passes during a
  -- simulation, and there is always time for the next attempt.
  pub record IsPatient : Type 0 where
    pub has_failed_at :
        (i : ℕ)
        → let out = (env.forward i).out in
          (is_some out.err || leb 500 out.status || (out.status == 429)) ≡ true
    pub not_begun : (i : ℕ) → (env.forward i).out.headers_sent ≡ false
    pub stays : (i : ℕ) → (env.forward i).gone ≡ false
    pub not_cut : (i : ℕ) → (env.forward i).cut ≡ false
    pub not_expired : (i : ℕ) → (class.simulate && (env.forward i).expired) ≡ false
    pub has_time : (i : ℕ) → env.time_left i ≡ true

  goes_on : IsPatient → (i : ℕ) → stop_at class (env.forward i) ≡ none
  goes_on w i =
      ground (arith, w.has_failed_at i, w.not_begun i, w.stays i, w.not_cut i, w.not_expired i)

  try_from-all :
      IsPatient
      → (k : ℕ) (last : Attempt) (us : List (Upstream R))
      → ((try_from class env k last us).sent ≡ us) × ((try_from class env k last us).stop ≡ none)
  unfolding try_from
  try_from-all w k last [] = (refl, refl)
  try_from-all w k last (u ∷ us) =
      let (a, b) = try_from-all w (suc k) (env.forward k) us in
      let on_time : (ltb 0 k && not (env.time_left k)) ≡ false = ground (arith, w.has_time k) in
      rw on_time (rw (goes_on w k) (ap (λ r. u ∷ r) a, b))

  external_keeps :
      (v : Upstream R) (t : Tried R) (ext : Upstream R) (a : Attempt) (x : Option Answer)
      → Mem v t.sent
      → Mem v (sent_external class env t ext a x).sent
  external_keeps v t ext a none m = mem-append_left (ext ∷ []) m
  external_keeps v t ext a (some x) m = mem-append_left (ext ∷ []) m

  then_keeps :
      (v : Upstream R) (t : Tried R) (ext : Option (Selection R))
      → Mem v t.sent
      → Mem v (then_external class env t ext).sent
  then_keeps v t none m = m
  then_keeps v t (some x) m =
      if_cases (λ (r : Forwarded R). Mem v r.sent) env.time_left_late
        (λ k. external_keeps v t x.chosen _ _ m) (λ k. m)

  after_keeps :
      (v : Upstream R) (t : Tried R) (ext : Option (Selection R)) (replay : Bool)
      (x : Option Answer)
      → Mem v t.sent
      → Mem v (after_tries class env replay ext t x).sent
  after_keeps v t ext replay (some x) m = m
  after_keeps v t ext replay none m =
      if_cases (λ (r : Forwarded R). Mem v r.sent) (replay && env.time_left (length t.sent))
        (λ k. then_keeps v t ext m) (λ k. m)

module _ {R : Type 0} ⦃f : Float R⦄ (o : RouterOptions R) (class : RequestClass) (env : Env R)
    (zero_attempt : Attempt) (ordered : IsOrdered f) where
  -- With no budget set, a request that can be sent again reaches every eligible candidate before the
  -- client is given an error, if every attempt fails before an answer is begun, the client stays, the
  -- limiter does not cut it short, no deadline passes in a simulation, and time is left.
  pub forward_selected_complete :
      (n best : ℕ) (cands : List (Upstream R)) (rnd : Option (ℕ → ℕ → ℕ)) (s : Selection R)
      → IsPatient class env
      → InRange rnd
      → sel o cands class best rnd ≡ some s
      → let sent = (forward_selected o (negsuc n) class env true zero_attempt s).sent in
        (u : Upstream R)
        → Among u cands
        → eligible u class best o.sync_tolerance ≡ true
        → Mem (record u { score = score u class best o.weights }) sent
  unfolding forward_selected sel tries_of
  forward_selected_complete n best cands rnd s w fair e u m h =
      let v : Upstream R = record u { score = score u class best o.weights } in
      let us = s.chosen ∷ s.alternates in
      let t = try_from class env 0 zero_attempt us in
      let p =
        (select_sound o.mode cands class best o.sync_tolerance o.weights rnd ordered fair s e).1 in
      let in_scored = Mem-of_Among v _ (
        subst (Among v) (scored-keep class best o.sync_tolerance o.weights cands)
          (scored_complete class best o.sync_tolerance o.weights cands u m h)) in
      after_keeps class env v t (external_fallback o class us env.checked env.rnd) true t.stop (
        subst (λ l. Mem v l) (sym (try_from-all class env w 0 zero_attempt us).0)
          ((Arranged.mem_iff p).1 in_scored))
