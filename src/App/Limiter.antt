-- ===== src/App/Limiter.antt =====
-- The table of the clients: `Limiter` of internal/app/ratelimit.go. The lock is held for the whole of
-- each operation. A plan that an identity names is one of the configured ones.
pub mod Saved
pub mod Tracked
use algod_loadb_mesh.Base.{
  ℕ, Bool, not, ◌&&◌, ◌||◌, Option, none, some, List, [], ◌∷◌, ltb, leb, if◌then◌else◌, Time, Bytes,
  codes, length, lookup, assign, Float,
}
use algod_loadb_mesh.App.Account.{
  Account, LimiterOptions, WindowName, Denial, beyond_cap, too_costly, refill_account, metering,
  shortfall, beyond_needs, too_costly_for, is_unreadable, new_ticket, admit_refilled, tick_account,
}
use algod_loadb_mesh.App.Identity.{TableOptions, ip_prefix, has_prefix}
use algod_loadb_mesh.Domain.NodeRecord.{is_nil}
use algod_loadb_mesh.Domain.Plan.{Plan, full, Beyond, cost_key, base_cost}
use algod_loadb_mesh.Domain.Request.{RequestClass}

pub record Limiter (R : Type 0) : Type 0 where
  pub accounts : List (Bytes × Account R)
  pub overflow : Option (Account R)

-- The account that `key` finds: that of a key, or the shared one.
pub data Slot : Type 0 where
  of_key : Bytes → Slot
  shared : Slot

module _ {R : Type 0} ⦃f : Float R⦄ (t : TableOptions) (o : LimiterOptions R) where
  abbrev pub new_account : Bytes → Plan R → Account R
  new_account id plan = record {
    id = id;
    plan = plan;
    minute = record { level = f.of_nat 0; at_time = 0 };
    day = record { level = f.of_nat 0; at_time = 0 };
    flights = [];
  }

  abbrev pub or_account : Account R → Option (Account R) → Account R
  or_account k none = k
  or_account k (some j) = j

  abbrev pub is_crowded : Limiter R → Bytes → Bool
  is_crowded l key = has_prefix key ip_prefix && leb t.max_keys (length l.accounts)

  abbrev pub key_or : Limiter R → Bytes → Plan R → Option (Account R) → Slot × Account R
  key_or l key plan (some k) = (of_key key, k)
  key_or l key plan none =
      if is_crowded l key
      then (shared, or_account (new_account (codes "ip:overflow") plan) l.overflow)
      else (of_key key, new_account key plan)

  -- `key`; the caller writes the account back.
  unfoldable pub find_key : Limiter R → Bytes → Plan R → Slot × Account R
  find_key l key plan = key_or l key plan (lookup key l.accounts)

  abbrev pub put_account : Limiter R → Slot → Account R → Limiter R
  put_account l (of_key key) k = record l { accounts = assign key k l.accounts }
  put_account l shared k = record l { overflow = some k }

  -- `Admit` of the table: a request that its plan never allows makes no account.
  abbrev pub admit_found :
      Limiter R
      → Slot × Account R
      → Plan R
      → RequestClass
      → ℕ
      → ℕ
      → Time
      → Limiter R × Option Denial
  admit_found l (slot, k) plan class best number now =
      let cost = base_cost o.weights class best in
      let k' = refill_account k now in
      let (k'', denial) =
        admit_refilled k' (shortfall k' cost) cost (is_unreadable plan class)
          (new_ticket number (cost_key class best) cost class.simulate now) in
      (put_account l slot k'', denial)

  abbrev pub admit_allowed :
      Limiter R
      → Bytes
      → Plan R
      → RequestClass
      → ℕ
      → ℕ
      → Time
      → Option Beyond
      → Option WindowName
      → Limiter R × Option Denial
  admit_allowed l key plan class best number now (some b) w = (l, some (beyond_cap b))
  admit_allowed l key plan class best number now none (some w) = (l, some (too_costly w))
  admit_allowed l key plan class best number now none none =
      admit_found l (find_key l key plan) plan class best number now

  unfoldable pub admit_client :
      Limiter R → Bytes → Plan R → RequestClass → ℕ → ℕ → Time → Limiter R × Option Denial
  admit_client l key plan class best number now =
      admit_allowed l key plan class best number now
        (beyond_needs plan class.simulate class.sim_needs)
        (too_costly_for plan (base_cost o.weights class best))

  -- `tick`: the accounts with a metered request in flight are those of `active`.
  abbrev pub tick_one : Time → Account R → Account R
  tick_one now k = if metering k then tick_account o now k else k

  abbrev pub tick_all : Time → List (Bytes × Account R) → List (Bytes × Account R)
  tick_all now [] = []
  tick_all now ((id, k) ∷ ks) = (id, tick_one now k) ∷ tick_all now ks

  abbrev pub tick_shared : Time → Option (Account R) → Option (Account R)
  tick_shared now none = none
  tick_shared now (some k) = some (tick_one now k)

  unfoldable pub tick : Limiter R → Time → Limiter R
  tick l now = record { accounts = tick_all now l.accounts; overflow = tick_shared now l.overflow }

  abbrev pub is_full : Account R → Bool
  is_full k = full k.plan.minute k.minute && full k.plan.day k.day

  -- `sweep`.
  unfoldable pub sweep_all : Time → List (Bytes × Account R) → List (Bytes × Account R)
  sweep_all now [] = []
  sweep_all now ((id, k) ∷ ks) =
      let rest = sweep_all now ks in
      let k' = refill_account k now in
      if not (is_nil k.flights)
      then (id, k) ∷ rest
      else if is_full k'
      then rest
      else (id, k') ∷ rest

  abbrev pub sweep_shared : Time → Bool → Option (Account R) → Option (Account R)
  sweep_shared now room none = none
  sweep_shared now room (some k) =
      let k' = refill_account k now in
      if not (is_nil k.flights) || not room then some k else if is_full k' then none else some k'

  unfoldable pub sweep : Limiter R → Time → Limiter R
  sweep l now =
      let ks = sweep_all now l.accounts in
      record { accounts = ks; overflow = sweep_shared now (ltb (length ks) t.max_keys) l.overflow }
