-- ===== src/App/Account/Terms.antt =====
-- The terms on which a plan admits a request.
use algod_loadb_mesh.Base.{
  ℕ, ◌≡◌, ◌⊎◌, true, false, Option, none, some, List, ◌∷◌, Time, Duration, second, pos, ◌≤ℤ◌, ltb_ℤ,
  Float, ge,
}
use algod_loadb_mesh.App.Account.{
  Ticket, Account, WindowName, minute_window, day_window, Denial, beyond_cap, too_costly,
  rate_limited, unreadable, owed,
}
use algod_loadb_mesh.Domain.Eligible.Spec.{OnSome}
use algod_loadb_mesh.Domain.Plan.{
  PlanWindow, Bucket, SimulateCaps, Plan, limited, refill, wait, Beyond,
}
use algod_loadb_mesh.Domain.Plan.Check.{IsWithin}
use algod_loadb_mesh.Domain.Request.{SimulateNeeds, RequestClass}

-- A plan without caps on simulations.
pub record IsWithoutCaps (c : SimulateCaps) : Type 0 where
  pub any_groups : c.max_groups ≡ 0
  pub any_rounds : c.max_rounds ≡ 0
  pub any_budget : c.max_extra_opcode_budget ≡ 0
  pub any_resources : c.deny_unnamed_resources ≡ false
  pub any_trace : c.deny_exec_trace ≡ false

module _ {R : Type 0} ⦃f : Float R⦄ where
  -- The account with both of its buckets refilled.
  abbrev pub refilled : Account R → Time → Account R
  refilled k now = record k {
    minute = refill k.plan.minute k.minute now;
    day = refill k.plan.day k.day now;
  }

  -- A bucket after a charge: one without a limit stays as it is.
  abbrev pub IsPaid : PlanWindow R → Bucket R → R → Bucket R → Type 0
  IsPaid w b cost b' =
      ((limited w ≡ true) × (b' ≡ record b { level = f.sub b.level cost }))
      ⊎ ((limited w ≡ false) × (b' ≡ b))

  -- `k'` is the account `k` with the cost paid and these requests in flight.
  pub record IsCharged (k k' : Account R) (cost : R) (flights : List (Ticket R)) : Type 0 where
    pub same_id : k'.id ≡ k.id
    pub same_plan : k'.plan ≡ k.plan
    pub minute_paid : IsPaid k.plan.minute k.minute cost k'.minute
    pub day_paid : IsPaid k.plan.day k.day cost k'.day
    pub now_flying : k'.flights ≡ flights

  abbrev pub window_of : Plan R → WindowName → PlanWindow R
  window_of p minute_window = p.minute
  window_of p day_window = p.day

  abbrev pub bucket_of : Account R → WindowName → Bucket R
  bucket_of k minute_window = k.minute
  bucket_of k day_window = k.day

  -- How long the client waits until the window, less what is owed, holds the cost; 0 or less is now.
  abbrev pub wait_for : Account R → R → WindowName → Duration
  wait_for k cost w = wait (window_of k.plan w) (f.sub (bucket_of k w).level (owed k)) cost

  -- The whole allowance of a window is less than the cost.
  abbrev pub IsTooDear : Plan R → R → WindowName → Type 0
  IsTooDear p cost w =
      (limited (window_of p w) ≡ true) × (f.lt (window_of p w).capacity cost ≡ true)

  -- The plan allows the request at some time.
  pub record IsAllowable (p : Plan R) (class : RequestClass) (cost : R) : Type 0 where
    pub caps_hold : OnSome (λ n. class.simulate ≡ true → IsWithin p.simulate n) class.sim_needs
    pub fits_window : (w : WindowName) → ¬ IsTooDear p cost w

  -- The account holds the cost now, above what is owed.
  abbrev pub HasRoom : Account R → R → Type 0
  HasRoom k cost =
      (ge f (f.of_nat 0) cost ≡ true)
      ⊎ ((w : WindowName) → ltb_ℤ (pos 0) (wait_for k cost w) ≡ false)

  -- A simulation that could not be read, under a plan with caps on simulations.
  abbrev pub IsIllegible : Plan R → RequestClass → Type 0
  IsIllegible p class =
      (class.simulate ≡ true) × (class.sim_needs ≡ none) × (¬ IsWithoutCaps p.simulate)

  -- A new ticket of the request.
  pub record IsTicket (t : Ticket R) (number : ℕ) (class : RequestClass) (cost : R) (now : Time)
      : Type 0 where
    pub its_number : t.number ≡ number
    pub its_base : t.base ≡ cost
    pub its_start : t.start ≡ now
    pub its_meter : t.metered ≡ class.simulate
    pub still_running : t.finished ≡ false

  -- Every outcome of `Admit`, with when it comes about.
  pub data IsAdmission (k : Account R) (class : RequestClass) (cost : R) (number : ℕ) (now : Time)
      (out : Account R × Option Denial) : Type 0 where
    over_cap :
        (n : SimulateNeeds) (b : Beyond)
        → class.simulate ≡ true
        → class.sim_needs ≡ some n
        → (¬ IsWithin k.plan.simulate n)
        → out ≡ (k, some (beyond_cap b))
        → IsAdmission k class cost number now out
    too_dear :
        (w : WindowName)
        → IsTooDear k.plan cost w
        → out ≡ (k, some (too_costly w))
        → IsAdmission k class cost number now out
    too_early :
        (w : WindowName) (d : Duration)
        → IsAllowable k.plan class cost
        → ge f (f.of_nat 0) cost ≡ false
        → ltb_ℤ (pos 0) (wait_for (refilled k now) cost w) ≡ true
        → (pos second ≤ℤ d) × (wait_for (refilled k now) cost w ≤ℤ d)
        → out ≡ (refilled k now, some (rate_limited d w))
        → IsAdmission k class cost number now out
    illegible :
        IsAllowable k.plan class cost
        → HasRoom (refilled k now) cost
        → IsIllegible k.plan class
        → out.1 ≡ some unreadable
        → IsCharged (refilled k now) out.0 cost k.flights
        → IsAdmission k class cost number now out
    taken :
        (t : Ticket R)
        → IsAllowable k.plan class cost
        → HasRoom (refilled k now) cost
        → (¬ IsIllegible k.plan class)
        → IsTicket t number class cost now
        → out.1 ≡ none
        → IsCharged (refilled k now) out.0 cost (t ∷ k.flights)
        → IsAdmission k class cost number now out
