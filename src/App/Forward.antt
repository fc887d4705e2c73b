-- ===== src/App/Forward.antt =====
-- How a request is sent and sent again: `forwardSelected` and `answerFailure` of
-- internal/app/router.go. What the forwarder returns, the contexts and the clock are an argument: for
-- each attempt, by its number, the outcome and what the contexts say after it, and before it whether
-- time is left.
pub mod Attempts
pub mod Answered
pub mod Complete
use algod_loadb_mesh.Base.{
  ℕ, suc, ◌+◌, ◌-◌, ◌/◌, Bool, not, ◌&&◌, ◌||◌, Option, none, some, List, [], ◌∷◌, ◌++◌, ltb, leb,
  ◌==◌, if◌then◌else◌, is_some, second, cut, length, take, ℤ, pos, negsuc, Float,
}
use algod_loadb_mesh.App.Fan.{answer}
use algod_loadb_mesh.App.Router.{RouterOptions, Snapshot, external_fallback}
use algod_loadb_mesh.App.Stats.{Outcome, has_failed}
use algod_loadb_mesh.Domain.Request.{RequestClass, heavy}
use algod_loadb_mesh.Domain.Select.{Selection}
use algod_loadb_mesh.Domain.Upstream.{Upstream}

-- One call of `forward`, after which the client may have left, the limiter may have cut the request
-- short, or the error may be that of a passed deadline.
pub record Attempt : Type 0 where
  pub out : Outcome
  pub gone : Bool
  pub cut : Bool
  pub expired : Bool

pub record Env (R : Type 0) : Type 0 where
  pub forward : ℕ → Attempt
  pub time_left : ℕ → Bool
  -- Once the externals are checked: what the check found, and the time and the quota then.
  pub checked : Option (Snapshot R)
  pub rnd : Option (ℕ → ℕ → ℕ)
  pub time_left_late : Bool
  pub cut_late : Bool

-- What `answerFailure` writes, by its text.
pub data Failure : Type 0 where
  nothing timeout unreachable : Failure
  all_nodes_busy : ℕ → Failure
  answered : ℕ → Failure

-- The client's answer comes from the forwarder or there is no client; or this agent writes one.
pub data Answer : Type 0 where
  settled over_quota : Answer
  failure : Failure → Answer

-- `ceilSeconds`, exactly.
abbrev pub ceil_seconds : ℕ → ℕ
ceil_seconds d = (d + second - 1) / second

-- `answerFailure`.
unfoldable pub answer_failure : RequestClass → Attempt → Failure
answer_failure class a =
    if a.out.headers_sent
    then nothing
    else if a.gone
    then nothing
    else if is_some a.out.err && a.expired
    then timeout
    else if heavy class && (a.out.status == 503) && ltb 0 a.out.retry_after
    then all_nodes_busy (ceil_seconds a.out.retry_after)
    else if leb 500 a.out.status || (a.out.status == 429)
    then answered a.out.status
    else unreachable

-- The client has its answer, or is gone.
abbrev pub is_settled : Attempt → Bool
is_settled a = not (has_failed a.out) || a.out.headers_sent || a.gone

-- What ends the attempts, in the loop and on the external.
abbrev pub stop_external : Attempt → Option Answer
stop_external a = if is_settled a then some settled else if a.cut then some over_quota else none

abbrev pub stop_at : RequestClass → Attempt → Option Answer
stop_at class a =
    if is_settled a
    then some settled
    else if a.cut
    then some over_quota
    else if class.simulate && (is_some a.out.err && a.expired)
    then some (failure (answer_failure class a))
    else none

-- The loop's result: the upstreams that were sent the request, the last attempt, and the answer
-- if it ended the attempts.
pub record Tried (R : Type 0) : Type 0 where
  pub sent : List (Upstream R)
  pub last : Attempt
  pub stop : Option Answer

-- Everything that the client's request led to.
pub record Forwarded (R : Type 0) : Type 0 where
  pub sent : List (Upstream R)
  pub last : Attempt
  pub answer : Answer

module _ {R : Type 0} where
  -- `tries` under the budget, -1 or less for all; a body that cannot be sent again is sent once.
  abbrev pub budgeted : ℤ → List (Upstream R) → List (Upstream R)
  budgeted (negsuc n) us = us
  budgeted (pos n) us = take (suc n) us

  unfoldable pub tries_of : ℤ → Bool → Selection R → List (Upstream R)
  tries_of budget replay s =
      let us = budgeted budget (s.chosen ∷ s.alternates) in if replay then us else take 1 us

  abbrev pub sent_to : Upstream R → Attempt → Option Answer → Tried R → Tried R
  sent_to u a none rest = record { sent = u ∷ rest.sent; last = rest.last; stop = rest.stop }
  sent_to u a (some x) rest = record { sent = u ∷ []; last = a; stop = some x }

  -- The loop from attempt `k` on.
  unfoldable pub try_from : RequestClass → Env R → ℕ → Attempt → List (Upstream R) → Tried R
  try_from class env k last [] = record { sent = []; last = last; stop = none }
  try_from class env k last (u ∷ us) =
      let a = env.forward k in
      let rest = try_from class env (suc k) a us in
      if ltb 0 k && not (env.time_left k)
      then record { sent = []; last = last; stop = none }
      else sent_to u a (stop_at class a) rest

  abbrev pub give_up : RequestClass → Bool → List (Upstream R) → Attempt → Forwarded R
  give_up class cut sent last = record {
    sent = sent;
    last = last;
    answer = if cut then over_quota else failure (answer_failure class last);
  }

  abbrev pub sent_external :
      RequestClass → Env R → Tried R → Upstream R → Attempt → Option Answer → Forwarded R
  sent_external class env t ext a (some x) = record {
    sent = t.sent ++ (ext ∷ []);
    last = a;
    answer = x;
  }
  sent_external class env t ext a none = give_up class env.cut_late (t.sent ++ (ext ∷ [])) a

  abbrev pub then_external : RequestClass → Env R → Tried R → Option (Selection R) → Forwarded R
  then_external class env t none = give_up class env.cut_late t.sent t.last
  then_external class env t (some ext) =
      let a = env.forward (length t.sent) in
      if env.time_left_late
      then sent_external class env t ext.chosen a (stop_external a)
      else give_up class env.cut_late t.sent t.last

  abbrev pub after_tries :
      RequestClass → Env R → Bool → Option (Selection R) → Tried R → Option Answer → Forwarded R
  after_tries class env replay ext t (some x) = record { sent = t.sent; last = t.last; answer = x }
  after_tries class env replay ext t none =
      if replay && env.time_left (length t.sent)
      then then_external class env t ext
      else give_up class env.cut_late t.sent t.last

module _ {R : Type 0} ⦃f : Float R⦄ (o : RouterOptions R) (budget : ℤ) where
  -- `forwardSelected`; `zero_attempt` is the zero value of `last`.
  unfoldable pub forward_selected :
      RequestClass → Env R → Bool → Attempt → Selection R → Forwarded R
  forward_selected class env replay zero_attempt s =
      let tries = tries_of budget replay s in
      let t = try_from class env 0 zero_attempt tries in
      after_tries class env replay (external_fallback o class tries env.checked env.rnd) t t.stop
