-- ===== src/App/Fan.antt =====
-- A request that goes to several nodes at once: `handlePending` and `pendingRank` of
-- internal/app/pending.go, and the loop of `handleBroadcast` of internal/app/router.go. The answers are
-- a list in the order in which they arrive. What a body says of a transaction is an argument. Ids of
-- upstreams are apart; metrics and logs are left.
pub mod Answers
pub mod Broadcasts
use algod_loadb_mesh.Base.{
  ℕ, suc, ◌+◌, Bool, true, false, not, ◌&&◌, ◌||◌, Option, none, some, List, [], ◌∷◌, ltb, leb,
  ◌==◌, if◌then◌else◌, Bytes, eqb,
}
use algod_loadb_mesh.App.Router.{withheld_status, fan_rank}

-- `fanResult`: the upstream, the status of its answer, none on an error, and the body.
pub record FanResult : Type 0 where
  pub id : Bytes
  pub status : Option ℕ
  pub body : Bytes

abbrev pub pending_failed : ℕ
pending_failed = 0

abbrev pub pending_other : ℕ
pending_other = 1

abbrev pub pending_not_found : ℕ
pending_not_found = 2

abbrev pub pending_in_pool : ℕ
pending_in_pool = 3

abbrev pub pending_pool_error : ℕ
pending_pool_error = 4

abbrev pub pending_confirmed : ℕ
pending_confirmed = 5

-- `confirmed-round` and `pool-error` of a body, none if it is unreadable.
abbrev pub body_rank : Option (ℕ × Bytes) → ℕ
body_rank none = pending_in_pool
body_rank (some (round, error)) =
    if ltb 0 round
    then pending_confirmed
    else if not (eqb error [])
    then pending_pool_error
    else pending_in_pool

abbrev pub status_rank : ℕ → ℕ → ℕ
status_rank status rank =
    if leb 500 status || (status == 429)
    then pending_failed
    else if status == 404
    then pending_not_found
    else if not (status == 200)
    then pending_other
    else rank

-- `pendingRank`.
abbrev pub rank_of : Option ℕ → ℕ → ℕ
rank_of none rank = pending_failed
rank_of (some status) rank = status_rank status rank

unfoldable pub pending_rank : (FanResult → Option (ℕ × Bytes)) → FanResult → ℕ
pending_rank decode r = rank_of r.status (body_rank (decode r))

-- `sort_by_round_desc` gives the order; the position of an id in it.
unfoldable pub position : Bytes → List Bytes → ℕ
position id [] = 0
position id (j ∷ js) = let rest = position id js in if eqb j id then 0 else suc rest

-- What the loop waits for: an answer, or the end of the grace period.
pub data Heard : Type 0 where
  answer : FanResult → Heard
  grace_over : Heard

module _ (decode : FanResult → Option (ℕ × Bytes)) (order : List Bytes) where
  -- `chosen` and `rank` after an answer; none is a rank of -1.
  abbrev pub outranks : FanResult → FanResult → Bool
  outranks r chosen =
      ltb (pending_rank decode chosen) (pending_rank decode r)
      || ((pending_rank decode r == pending_rank decode chosen)
          && ltb (position r.id order) (position chosen.id order))

  abbrev pub better_answer : Option FanResult → FanResult → FanResult
  better_answer none r = r
  better_answer (some chosen) r = if outranks r chosen then r else chosen

  -- Whether the grace period has begun.
  abbrev pub in_grace : Option FanResult → Bool
  in_grace none = false
  in_grace (some r) = leb pending_in_pool (pending_rank decode r)

  -- The loop `collect`.
  unfoldable pub collect : Option FanResult → List Heard → Option FanResult
  collect chosen [] = chosen
  collect chosen (grace_over ∷ later) =
      let rest = collect chosen later in if in_grace chosen then chosen else rest
  collect chosen (answer r ∷ later) =
      let best = better_answer chosen r in
      let rest = collect (some best) later in
      if pending_rank decode best == pending_confirmed then some best else rest

abbrev pub is_ok : Option ℕ → Bool
is_ok none = false
is_ok (some status) = status == 200

abbrev pub is_unanswered : Option ℕ → Bool
is_unanswered none = true
is_unanswered (some status) = withheld_status status

-- The result of the loop of `handleBroadcast`: the first success, or the answer to fall back on and
-- the number of nodes that did not answer.
pub data Broadcast : Type 0 where
  succeeded : FanResult → Broadcast
  all_failed : Option FanResult → ℕ → Broadcast

abbrev pub better_fallback : Option FanResult → FanResult → FanResult
better_fallback none r = r
better_fallback (some b) r = if ltb (fan_rank b.status) (fan_rank r.status) then r else b

unfoldable pub collect_broadcast : Option FanResult → ℕ → List FanResult → Broadcast
collect_broadcast best unanswered [] = all_failed best unanswered
collect_broadcast best unanswered (r ∷ rs) =
    let rest =
      collect_broadcast (some (better_fallback best r))
        (if is_unanswered r.status then unanswered + 1 else unanswered) rs in
    if is_ok r.status then succeeded r else rest
