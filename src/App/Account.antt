-- ===== src/App/Account.antt =====
-- One client's allowance: `limitKey` and `Ticket` of internal/app/ratelimit.go. `tracked` is
-- whether a ticket has a function that cancels its request. The limiter's lock is held for the
-- whole of each operation, which here takes the account and the clock's time. A ticket is named by
-- a number, which stands for its address. What is saved in files is in Limiter/Saved. Headers, logs
-- and metrics are not modelled.
pub mod Waits
pub mod Terms
pub mod Admission
use algod_loadb_mesh.Base.{
  ℕ, Bool, true, false, not, ◌&&◌, ◌||◌, Option, none, some, List, [], ◌∷◌, map, ◌==◌,
  if◌then◌else◌, is_some, Time, Duration, sub_time, second, Bytes, codes, keep, any, pos, ltb_ℤ,
  lookup, Float, ge,
}
use algod_loadb_mesh.App.Stats.{busy}
use algod_loadb_mesh.Domain.Effort.{Effort, no_effort, add_effort, EffortRates, credits}
use algod_loadb_mesh.Domain.Plan.{
  PlanWindow, Bucket, SimulateCaps, Plan, limited, refill, wait, Beyond, check, cost_key,
  CostWeights, or_zero, base_cost,
}
use algod_loadb_mesh.Domain.Request.{SimulateNeeds, RequestClass}

pub record Ticket (R : Type 0) : Type 0 where
  pub number : ℕ
  pub cost_key : Bytes
  pub base : R
  pub metered : Bool
  pub start : Time
  pub extra : R
  pub frozen : Bool
  pub effort : Effort
  pub reported : Bool
  pub refunded : Bool
  pub tracked : Bool
  pub cancelled : Bool
  pub finished : Bool

-- `limitKey`.
pub record Account (R : Type 0) : Type 0 where
  pub id : Bytes
  pub plan : Plan R
  pub minute : Bucket R
  pub day : Bucket R
  pub flights : List (Ticket R)

-- The options that the accounts read.
pub record LimiterOptions (R : Type 0) : Type 0 where
  pub weights : CostWeights R
  pub rates : EffortRates R
  pub simulate_per_second : R

pub data WindowName : Type 0 where
  minute_window day_window : WindowName

pub data Denial : Type 0 where
  beyond_cap : Beyond → Denial
  too_costly : WindowName → Denial
  rate_limited : Duration → WindowName → Denial
  unreadable : Denial

-- The wait of the minute, and then that of the day if it is longer.
abbrev pub longer_wait : Duration → Duration → Option (Duration × WindowName)
longer_wait m d =
    if ltb_ℤ (if ltb_ℤ (pos 0) m then m else pos 0) d
    then some (d, day_window)
    else if ltb_ℤ (pos 0) m
    then some (m, minute_window)
    else none

abbrev pub at_least_second : Option (Duration × WindowName) → Option (Duration × WindowName)
at_least_second none = none
at_least_second (some (d, w)) = some (if ltb_ℤ d (pos second) then pos second else d, w)

-- The longer of a shortfall's wait and one second.
abbrev wait_of : Option (Duration × WindowName) → Duration
wait_of none = pos second
wait_of (some (d, w)) = if ltb_ℤ d (pos second) then pos second else d

abbrev pub is_uncapped : SimulateCaps → Bool
is_uncapped c =
    (c.max_groups == 0)
    && (c.max_rounds == 0)
    && (c.max_extra_opcode_budget == 0)
    && not c.deny_unnamed_resources
    && not c.deny_exec_trace

module _ {R : Type 0} ⦃f : Float R⦄ where
  unfoldable pub refill_account : Account R → Time → Account R
  refill_account k now = record k {
    minute = refill k.plan.minute k.minute now;
    day = refill k.plan.day k.day now;
  }

  abbrev pub take_level : PlanWindow R → Bucket R → R → Bucket R
  take_level w b c = if limited w then record b { level = f.sub b.level c } else b

  unfoldable pub charge : Account R → R → Account R
  charge k c = record k {
    minute = take_level k.plan.minute k.minute c;
    day = take_level k.plan.day k.day c;
  }

  -- The sum of `owed`, in the order of the flights.
  unfoldable pub owed_from : R → List (Ticket R) → R
  owed_from sum [] = sum
  owed_from sum (t ∷ ts) = owed_from (f.add sum t.extra) ts

  unfoldable pub owed : Account R → R
  owed k = owed_from (f.of_nat 0) k.flights

  unfoldable pub metering : Account R → Bool
  metering k = any (λ t. t.metered) k.flights

  -- `shortfall`; none when the account holds the cost now.
  unfoldable pub shortfall : Account R → R → Option (Duration × WindowName)
  shortfall k cost =
      let o = owed k in
      if ge f (f.of_nat 0) cost
      then none
      else at_least_second (
          longer_wait (wait k.plan.minute (f.sub k.minute.level o) cost)
            (wait k.plan.day (f.sub k.day.level o) cost))

  unfoldable pub overdrawn : Account R → Bool
  overdrawn k =
      let o = owed k in
      (limited k.plan.minute && f.lt (f.sub k.minute.level o) (f.of_nat 0))
      || (limited k.plan.day && f.lt (f.sub k.day.level o) (f.of_nat 0))

  -- The reason that a plan never allows the request.
  abbrev pub beyond_needs : Plan R → Bool → Option SimulateNeeds → Option Beyond
  beyond_needs p simulate none = none
  beyond_needs p simulate (some n) = if simulate then check p.simulate n else none

  abbrev exceeds : PlanWindow R → R → Bool
  exceeds w cost = limited w && f.lt w.capacity cost

  -- The windows whose whole allowance the cost exceeds, the minute first.
  abbrev pub too_costly_for : Plan R → R → Option WindowName
  too_costly_for p cost =
      if exceeds p.minute cost
      then some minute_window
      else if exceeds p.day cost
      then some day_window
      else none

  abbrev pub is_unreadable : Plan R → RequestClass → Bool
  is_unreadable p c = c.simulate && not (is_some c.sim_needs) && not (is_uncapped p.simulate)

  abbrev pub new_ticket : ℕ → Bytes → R → Bool → Time → Ticket R
  new_ticket number key base metered now = record {
    number = number;
    cost_key = key;
    base = base;
    metered = metered;
    start = now;
    extra = f.of_nat 0;
    frozen = false;
    effort = no_effort;
    reported = false;
    refunded = false;
    tracked = false;
    cancelled = false;
    finished = false;
  }

  -- The end of `Admit`, on the refilled account.
  abbrev pub admit_refilled :
      Account R → Option (Duration × WindowName) → R → Bool → Ticket R → Account R × Option Denial
  admit_refilled k (some (d, w)) cost illegible t = (k, some (rate_limited d w))
  admit_refilled k none cost illegible t =
      if illegible
      then (charge k cost, some unreadable)
      else (record (charge k cost) { flights = t ∷ k.flights }, none)

  abbrev pub admit_priced :
      Account R → Option WindowName → R → Bool → Ticket R → Time → Account R × Option Denial
  admit_priced k (some w) cost illegible t now = (k, some (too_costly w))
  admit_priced k none cost illegible t now =
      let k' = refill_account k now in admit_refilled k' (shortfall k' cost) cost illegible t

  abbrev pub admit_checked :
      Account R → Option Beyond → R → Bool → Ticket R → Time → Account R × Option Denial
  admit_checked k (some b) cost illegible t now = (k, some (beyond_cap b))
  admit_checked k none cost illegible t now =
      admit_priced k (too_costly_for k.plan cost) cost illegible t now

  -- `(*Limiter).Admit`, on the account of its client; `number` names the new ticket.
  unfoldable pub admit :
      LimiterOptions R → Account R → RequestClass → ℕ → ℕ → Time → Account R × Option Denial
  admit o k class best number now =
      let cost = base_cost o.weights class best in
      admit_checked k (beyond_needs k.plan class.simulate class.sim_needs) cost
        (is_unreadable k.plan class)
        (new_ticket number (cost_key class best) cost class.simulate now) now

  -- `meter`.
  abbrev pub meter : LimiterOptions R → Ticket R → Time → R
  meter o t now =
      let d = sub_time now t.start in
      f.mul (if ltb_ℤ d (pos 0) then f.of_nat 0 else f.seconds d) o.simulate_per_second

  -- `settle`, of a ticket; its caller has the account.
  unfoldable pub settle : LimiterOptions R → Ticket R → Time → Ticket R
  settle o t now =
      if t.frozen
      then t
      else if t.reported
      then record t { extra = credits o.rates t.effort }
      else if t.metered
      then record t { extra = meter o t now }
      else t

  -- `Reported`.
  unfoldable report_effort : Ticket R → Effort → Ticket R
  report_effort t e = record t { effort = add_effort t.effort e; reported = true }

  -- A ticket is shared with the flights of its account.
  abbrev update_flight : Ticket R → List (Ticket R) → List (Ticket R)
  update_flight t [] = []
  update_flight t (u ∷ us) =
      let rest = update_flight t us in if u.number == t.number then t ∷ rest else u ∷ rest

  abbrev pub in_flight : Account R → Ticket R → Account R
  in_flight k t = record k { flights = update_flight t k.flights }

  -- `refund`, of the ticket and of its account.
  unfoldable pub refund : LimiterOptions R → Account R → Ticket R → Account R × Ticket R
  refund o k t =
      let floor = or_zero (lookup (codes "default") o.weights) in
      let back = f.sub t.base floor in
      let t' = record t { extra = f.of_nat 0; frozen = true; refunded = true } in
      if f.lt (f.of_nat 0) back
      then (
        in_flight (charge k (f.sub (f.of_nat 0) back)) (record t' { base = floor }),
        record t' { base = floor },
      )
      else (in_flight k t', t')

  abbrev pub without : ℕ → List (Ticket R) → List (Ticket R)
  without number = keep (λ t. not (t.number == number))

  -- `Done`: the ticket, and its account with the bill paid.
  unfoldable pub finish : LimiterOptions R → Account R → Ticket R → Time → Account R × Ticket R
  finish o k t now =
      let t' = settle o (record t { finished = true }) now in
      if t.finished
      then (k, t)
      else (charge (record k { flights = without t.number k.flights }) t'.extra, t')

  -- `Track`.
  abbrev track : Ticket R → Ticket R
  track t = record t { tracked = true }

  -- `Responding`, but for the headers: the ticket is frozen, and its account refilled. `busy` is
  -- whether the answer is a 503 with a Retry-After.
  abbrev pub refunded_first : LimiterOptions R → Account R → Ticket R → Bool → Account R × Ticket R
  refunded_first o k t busy =
      if busy && not t.reported && not t.refunded then refund o k t else (k, t)

  unfoldable responding :
      LimiterOptions R → Account R → Ticket R → Bool → Time → Account R × Ticket R
  responding o k t busy now =
      let (k', t₁) = refunded_first o k t busy in
      let t₂ = record (settle o t₁ now) { frozen = true } in
      (refill_account (in_flight k' t₂) now, t₂)

  -- `Exhausted`, with the wait that the client is told.
  unfoldable exhausted : Account R → Ticket R → Time → Account R × Duration
  exhausted k t now = let k' = refill_account k now in (k', wait_of (shortfall k' t.base))

  -- The body of `tick`, for one account with a metered request.
  abbrev pub run_meter : LimiterOptions R → Time → Ticket R → Ticket R
  run_meter o now t = if t.metered && not t.frozen then record t { extra = meter o t now } else t

  abbrev pub cancel_flight : Ticket R → Ticket R
  cancel_flight t =
      if t.frozen || not t.tracked then t else record t { frozen = true; cancelled = true }

  unfoldable pub tick_account : LimiterOptions R → Time → Account R → Account R
  tick_account o now k =
      let k' = refill_account (record k { flights = map (run_meter o now) k.flights }) now in
      if overdrawn k' then record k' { flights = map cancel_flight k'.flights } else k'
