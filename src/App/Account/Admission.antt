-- ===== src/App/Account/Admission.antt =====
-- Which requests `Admit` lets through, and what it leaves of the client's account.
use algod_loadb_mesh.Base.{
  ℕ, ◌≡◌, refl, ◌↔◌, inl, inr, Bool, true, false, Option, none, some, List, ◌∷◌, arith, Bool-cases,
  Time, Duration, second, Bytes, pos, ◌≤ℤ◌, ltb_ℤ, Float, ge,
}
use algod_loadb_mesh.App.Account.{
  Ticket, Account, LimiterOptions, WindowName, minute_window, day_window, is_uncapped,
  refill_account, take_level, charge, shortfall, beyond_needs, too_costly_for, is_unreadable,
  new_ticket, admit_refilled, admit_priced, admit_checked, admit,
}
use algod_loadb_mesh.App.Account.Terms.{
  IsWithoutCaps, refilled, IsPaid, IsCharged, wait_for, IsTooDear, IsAllowable, HasRoom,
  IsIllegible, IsAdmission, over_cap, too_dear, too_early, illegible, taken,
}
use algod_loadb_mesh.App.Account.Waits.{IsWaitOf, longer-IsWaitOf}
use algod_loadb_mesh.Domain.Eligible.Spec.{OnSome}
use algod_loadb_mesh.Domain.Plan.{
  PlanWindow, Bucket, SimulateCaps, Plan, limited, Beyond, cost_key, base_cost,
}
use algod_loadb_mesh.Domain.Plan.Check.{IsWithin, check_iff}
use algod_loadb_mesh.Domain.Request.{SimulateNeeds, RequestClass}

uncapped-IsWithoutCaps : (c : SimulateCaps) → (is_uncapped c ≡ true) ↔ IsWithoutCaps c
uncapped-IsWithoutCaps c = (
  λ e. record {
    any_groups = ground arith;
    any_rounds = ground arith;
    any_budget = ground arith;
    any_resources = ground arith;
    any_trace = ground arith;
  },
  λ h. ground (arith, h.any_groups, h.any_rounds, h.any_budget, h.any_resources, h.any_trace),
)

module _ {R : Type 0} ⦃f : Float R⦄ where
  dear-IsTooDear :
      (p : Plan R) (cost : R) (w : WindowName) → too_costly_for p cost ≡ some w → IsTooDear p cost w
  dear-IsTooDear p cost minute_window e = (ground arith, ground arith)
  dear-IsTooDear p cost day_window e = (ground arith, ground arith)

  not_dear :
      (p : Plan R) (cost : R) (w : WindowName) → too_costly_for p cost ≡ none → ¬ IsTooDear p cost w
  not_dear p cost minute_window e (a, b) = ground arith
  not_dear p cost day_window e (a, b) = ground arith

  caps_held :
      (p : Plan R) (simulate : Bool) (o : Option SimulateNeeds)
      → beyond_needs p simulate o ≡ none
      → OnSome (λ n. simulate ≡ true → IsWithin p.simulate n) o
  caps_held p simulate none e = tt
  caps_held p simulate (some n) e = λ s. (check_iff p.simulate n).0 (rw s at e)

  cap_passed :
      (p : Plan R) (simulate : Bool) (o : Option SimulateNeeds) (b : Beyond)
      → beyond_needs p simulate o ≡ some b
      → (n : SimulateNeeds) × (simulate ≡ true) × (o ≡ some n) × (¬ IsWithin p.simulate n)
  cap_passed p simulate none b e = cc
  cap_passed p true (some n) b e = (n, refl, refl, λ w. let q = (check_iff p.simulate n).1 w in cc)
  cap_passed p false (some n) b e = cc

  IsIllegible-of :
      (p : Plan R) (class : RequestClass) → is_unreadable p class ≡ true → IsIllegible p class
  IsIllegible-of p class e = needs class.sim_needs refl
    where
      needs : (o : Option SimulateNeeds) → class.sim_needs ≡ o → IsIllegible p class
      needs none q = (
        ground arith,
        q,
        λ w. let u = (uncapped-IsWithoutCaps p.simulate).1 w in ground (arith, e, u),
      )
      needs (some n) q = let e' = (rw q at e) in absurd (ground arith)

  legible_of :
      (p : Plan R) (class : RequestClass) → is_unreadable p class ≡ false → ¬ IsIllegible p class
  legible_of p class e (a, b, c) = elim (Bool-cases (is_uncapped p.simulate)) [
    | inl u ↦ c ((uncapped-IsWithoutCaps p.simulate).0 u)
    | inr u ↦ let e' = (rw (a, b, u) at e) in cc
  ]

  paid : (w : PlanWindow R) (b : Bucket R) (cost : R) → IsPaid w b cost (take_level w b cost)
  paid w b cost = elim (Bool-cases (limited w)) [
    | inl e ↦ rw e (inl (refl, refl))
    | inr e ↦ rw e (inr (refl, refl))
  ]

  -- What `shortfall` says of the account.
  abbrev IsShort : Account R → R → Option (Duration × WindowName) → Type 0
  IsShort k cost none = HasRoom k cost
  IsShort k cost (some (d, w)) =
      (ge f (f.of_nat 0) cost ≡ false)
      × (ltb_ℤ (pos 0) (wait_for k cost w) ≡ true)
      × (pos second ≤ℤ d)
      × (wait_for k cost w ≤ℤ d)

  waited-IsShort :
      (k : Account R) (cost : R) (x : Option (Duration × WindowName))
      → ge f (f.of_nat 0) cost ≡ false
      → IsWaitOf (wait_for k cost) x
      → IsShort k cost x
  waited-IsShort k cost none e h = inr h
  waited-IsShort k cost (some (d, w)) e h = (e, h.0, h.1, h.2)

  shortfall-IsShort : (k : Account R) (cost : R) → IsShort k cost (shortfall k cost)
  unfolding shortfall
  shortfall-IsShort k cost = elim (Bool-cases (ge f (f.of_nat 0) cost)) [
    | inl e ↦ rw e (inl e)
    | inr e ↦ rw e (waited-IsShort k cost _ e (longer-IsWaitOf (wait_for k cost)))
  ]

  charge-IsCharged :
      (k : Account R) (cost : R) (flights : List (Ticket R))
      → IsCharged k (record (charge k cost) { flights = flights }) cost flights
  unfolding charge
  charge-IsCharged k cost flights = record {
    same_id = refl;
    same_plan = refl;
    minute_paid = paid k.plan.minute k.minute cost;
    day_paid = paid k.plan.day k.day cost;
    now_flying = refl;
  }

  refilled-IsAdmission :
      (k : Account R) (class : RequestClass) (cost : R) (number : ℕ) (now : Time) (key : Bytes)
      (x : Option (Duration × WindowName))
      → IsAllowable k.plan class cost
      → IsShort (refilled k now) cost x
      → IsAdmission k class cost number now (
          admit_refilled
            (refilled k now)
            x
            cost
            (is_unreadable k.plan class)
            (new_ticket number key cost class.simulate now))
  unfolding charge
  refilled-IsAdmission k class cost number now key (some (d, w)) h (a, b, c, e) =
      too_early w d h a b (c, e) refl
  refilled-IsAdmission k class cost number now key none h room =
      elim (Bool-cases (is_unreadable k.plan class)) [
        | inl e ↦ rw e (
            illegible h room (IsIllegible-of k.plan class e) refl
              (charge-IsCharged (refilled k now) cost k.flights))
        | inr e ↦
            let t = new_ticket number key cost class.simulate now in
            rw e (
              taken t h room (legible_of k.plan class e)
                (record {
                  its_number = refl;
                  its_base = refl;
                  its_start = refl;
                  its_meter = refl;
                  still_running = refl;
                })
                refl (charge-IsCharged (refilled k now) cost (t ∷ k.flights)))
      ]

  priced-IsAdmission :
      (k : Account R) (class : RequestClass) (cost : R) (number : ℕ) (now : Time) (key : Bytes)
      (w : Option WindowName)
      → OnSome (λ n. class.simulate ≡ true → IsWithin k.plan.simulate n) class.sim_needs
      → too_costly_for k.plan cost ≡ w
      → IsAdmission k class cost number now (
          admit_priced k w cost
            (is_unreadable k.plan class)
            (new_ticket number key cost class.simulate now)
            now)
  unfolding refill_account
  priced-IsAdmission k class cost number now key (some w) h e =
      too_dear w (dear-IsTooDear k.plan cost w e) refl
  priced-IsAdmission k class cost number now key none h e =
      refilled-IsAdmission k class cost number now key (shortfall (refilled k now) cost)
        (record { caps_hold = h; fits_window = λ w. not_dear k.plan cost w e })
        (shortfall-IsShort (refilled k now) cost)

  checked-IsAdmission :
      (k : Account R) (class : RequestClass) (cost : R) (number : ℕ) (now : Time) (key : Bytes)
      (b : Option Beyond)
      → beyond_needs k.plan class.simulate class.sim_needs ≡ b
      → IsAdmission k class cost number now (
          admit_checked k b cost
            (is_unreadable k.plan class)
            (new_ticket number key cost class.simulate now)
            now)
  checked-IsAdmission k class cost number now key (some b) e =
      let (n, s, q, w) = cap_passed k.plan class.simulate class.sim_needs b e in
      over_cap n b s q w refl
  checked-IsAdmission k class cost number now key none e =
      priced-IsAdmission k class cost number now key (too_costly_for k.plan cost)
        (caps_held k.plan class.simulate class.sim_needs e) refl

  -- Every outcome of `Admit`, with when it comes about. A simulation over the plan's caps, and a cost
  -- over the whole allowance of a window, are refused and leave the account alone. Else the buckets are
  -- refilled. If a window does not hold the cost above what is owed, the request is refused, with a
  -- wait of a second or more. Else the cost is taken from both windows, as far as they have limits, and
  -- the request is put in flight, but for a simulation that could not be read under a plan with caps.
  pub admit-IsAdmission :
      (o : LimiterOptions R) (k : Account R) (class : RequestClass) (best number : ℕ) (now : Time)
      → IsAdmission k class
          (base_cost o.weights class best)
          number
          now
          (admit o k class best number now)
  unfolding admit
  admit-IsAdmission o k class best number now =
      checked-IsAdmission k class (base_cost o.weights class best) number now (cost_key class best)
        (beyond_needs k.plan class.simulate class.sim_needs) refl
