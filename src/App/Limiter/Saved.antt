-- ===== src/App/Limiter/Saved.antt =====
-- The allowances that survive a restart: `save`, `load` and `planOf` of internal/app/ratelimit.go. The
-- file is the list of what it holds, by key; its JSON and its writing are left.
pub mod Lowered
use algod_loadb_mesh.Base.{
  not, ◌&&◌, ◌||◌, Option, none, some, List, [], ◌∷◌, if◌then◌else◌, is_some, Time, Bytes, codes,
  eqb, length, drop, lookup, assign, Float,
}
use algod_loadb_mesh.App.Account.{Account, LimiterOptions, refill_account, take_level, owed}
use algod_loadb_mesh.App.Identity.{LimitToken, TableOptions, ip_prefix, token_prefix, has_prefix}
use algod_loadb_mesh.App.Limiter.{Limiter, new_account}
use algod_loadb_mesh.Domain.Plan.{Bucket, Plan, full}

-- `limiterBucket`.
pub record SavedBuckets (R : Type 0) : Type 0 where
  pub saved_minute : Bucket R
  pub saved_day : Bucket R

-- `strings.TrimPrefix`, of a prefix that is there.
abbrev after_prefix : Bytes → Bytes → Bytes
after_prefix s p = drop (length p) s

-- `byName`, where the last of a name counts.
unfoldable pub named_token : Bytes → List LimitToken → Option LimitToken
named_token name [] = none
named_token name (t ∷ ts) =
    let rest = named_token name ts in
    if is_some rest then rest else if eqb t.name name then some t else none

module _ {R : Type 0} ⦃f : Float R⦄ (t : TableOptions) (o : LimiterOptions R)
    (plans : List (Bytes × Plan R)) where
  abbrev token_plan : Option LimitToken → Option (Plan R)
  token_plan none = none
  token_plan (some k) = lookup k.plan plans

  -- `planOf`.
  unfoldable pub plan_of : Bytes → Option (Plan R)
  plan_of id =
      if has_prefix id token_prefix
      then token_plan (named_token (after_prefix id token_prefix) t.tokens)
      else if has_prefix id ip_prefix && not (eqb id (codes "ip:overflow"))
      then lookup t.anonymous_plan plans
      else none

  -- What `save` keeps of an account, refilled; none of a full one.
  abbrev pub saved_of : Account R → Option (SavedBuckets R)
  saved_of k =
      let minute = take_level k.plan.minute k.minute (owed k) in
      let day = take_level k.plan.day k.day (owed k) in
      if not (full k.plan.minute minute) || not (full k.plan.day day)
      then some (record { saved_minute = minute; saved_day = day })
      else none

  abbrev keep_saved :
      Bytes
      → Option (SavedBuckets R)
      → List (Bytes × SavedBuckets R)
      → List (Bytes × SavedBuckets R)
  keep_saved id none rest = rest
  keep_saved id (some s) rest = (id, s) ∷ rest

  unfoldable pub save_all :
      Time → List (Bytes × Account R) → List (Bytes × Account R) × List (Bytes × SavedBuckets R)
  save_all now [] = ([], [])
  save_all now ((id, k) ∷ ks) =
      let rest = save_all now ks in
      let k' = refill_account k now in ((id, k') ∷ rest.0, keep_saved id (saved_of k') rest.1)

  -- `save`: the table, whose accounts are refilled, and the file.
  unfoldable pub save : Limiter R → Time → Limiter R × List (Bytes × SavedBuckets R)
  save l now = let (ks, file) = save_all now l.accounts in (record l { accounts = ks }, file)

  -- A saved account under its plan, refilled.
  abbrev pub restored : Bytes → Plan R → SavedBuckets R → Time → Account R
  restored id plan s now =
      refill_account
        (record (new_account t o id plan) { minute = s.saved_minute; day = s.saved_day }) now

  abbrev pub lower_bucket : Bucket R → Bucket R → Bucket R
  lower_bucket b s = record b { level = f.min b.level s.level }

  abbrev pub lowered : Account R → Account R → Account R
  lowered k s = record k { minute = lower_bucket k.minute s.minute; day = lower_bucket k.day s.day }

  abbrev pub merged : Time → Account R → Option (Account R) → Account R
  merged now s none = s
  merged now s (some k) = lowered (refill_account k now) s

  abbrev pub load_planned :
      Time
      → List (Bytes × Account R)
      → Bytes
      → SavedBuckets R
      → Option (Plan R)
      → List (Bytes × Account R)
  load_planned now ks id s none = ks
  load_planned now ks id s (some plan) =
      assign id (merged now (restored id plan s now) (lookup id ks)) ks

  -- `load`.
  unfoldable pub load_all :
      Time → List (Bytes × Account R) → List (Bytes × SavedBuckets R) → List (Bytes × Account R)
  load_all now ks [] = ks
  load_all now ks ((id, s) ∷ file) = load_all now (load_planned now ks id s (plan_of id)) file

  unfoldable pub load : Limiter R → Time → List (Bytes × SavedBuckets R) → Limiter R
  load l now file = record l { accounts = load_all now l.accounts file }
