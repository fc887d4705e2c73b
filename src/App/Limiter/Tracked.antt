-- ===== src/App/Limiter/Tracked.antt =====
-- How many anonymous clients the limiter keeps an account of.
use algod_loadb_mesh.Base.{
  ℕ, suc, ◌+◌, ◌≤◌, ◌<◌, ◌≡◌, refl, ap, subst, inl, inr, Bool, false, not, Option, none, some, List,
  [], ◌∷◌, arith, if◌then◌else◌, Bool-cases, if_cases, Time, Bytes, codes, eqb, length, lookup,
  assign, Float,
}
use algod_loadb_mesh.App.Account.{Account, LimiterOptions, WindowName, refill_account}
use algod_loadb_mesh.App.Identity.{TableOptions, has_prefix}
use algod_loadb_mesh.App.Limiter.{
  Limiter, Slot, of_key, shared, is_crowded, key_or, find_key, put_account, admit_found,
  admit_allowed, admit_client, tick_all, tick, is_full, sweep_all, sweep,
}
use algod_loadb_mesh.Domain.NodeRecord.{is_nil}
use algod_loadb_mesh.Domain.Plan.{Plan, Beyond}
use algod_loadb_mesh.Domain.Request.{RequestClass}

-- The number of accounts that are kept by address.
abbrev pub count_ip {ℓ} : {A : Type ℓ} → List (Bytes × A) → ℕ
count_ip [] = 0
count_ip ((id, k) ∷ ks) = (if has_prefix id (codes "ip:") then 1 else 0) + count_ip ks

count_ip-le : {A : Type 0} (ks : List (Bytes × A)) → count_ip ks ≤ length ks
count_ip-le [] = omega arith
count_ip-le ((id, k) ∷ ks) =
    if_cases (λ (n : ℕ). n + count_ip ks ≤ suc (length ks)) (has_prefix id (codes "ip:"))
      (λ e. omega (arith, count_ip-le ks)) (λ e. omega (arith, count_ip-le ks))

count_ip-assign :
    {A : Type 0} (key : Bytes) (k : A) (ks : List (Bytes × A))
    → count_ip (assign key k ks) ≤ (if has_prefix key (codes "ip:") then 1 else 0) + count_ip ks
unfolding assign
count_ip-assign key k [] = omega arith
count_ip-assign key k ((id, j) ∷ ks) = elim (Bool-cases (eqb id key)) [
  | inl e ↦ rw e (omega arith)
  | inr e ↦ rw e (omega (arith, count_ip-assign key k ks))
]

-- An account that is there already is written in place.
count_ip-known :
    {A : Type 0} (key : Bytes) (k j : A) (ks : List (Bytes × A))
    → lookup key ks ≡ some j
    → count_ip (assign key k ks) ≡ count_ip ks
unfolding assign lookup
count_ip-known key k j [] h = cc
count_ip-known key k j ((id, i) ∷ ks) h = elim (Bool-cases (eqb id key)) [
  | inl e ↦ rw e refl
  | inr e ↦ rw e (
      ap (λ n. (if has_prefix id (codes "ip:") then 1 else 0) + n)
        (count_ip-known key k j ks (rw e at h)))
]

-- What happens to the table: a request, a change to the account of a request in flight (`Reported`,
-- `Responding`, `Done`, `Exhausted`), and the timers of `Run`.
pub data Event (R : Type 0) : Type 0 where
  requested : Bytes → Plan R → RequestClass → ℕ → ℕ → Time → Event R
  worked : Slot → (Account R → Account R) → Event R
  ticked : Time → Event R
  swept : Time → Event R

module _ {R : Type 0} ⦃f : Float R⦄ (t : TableOptions) (o : LimiterOptions R) where
  abbrev pub work_at : Limiter R → Slot → (Account R → Account R) → Option (Account R) → Limiter R
  work_at l slot g none = l
  work_at l slot g (some k) = put_account t o l slot (g k)

  abbrev pub account_at : Limiter R → Slot → Option (Account R)
  account_at l (of_key key) = lookup key l.accounts
  account_at l shared = l.overflow

  abbrev pub table_step : Limiter R → Event R → Limiter R
  table_step l (requested key plan class best number now) =
      (admit_client t o l key plan class best number now).0
  table_step l (worked slot g) = work_at l slot g (account_at l slot)
  table_step l (ticked now) = tick t o l now
  table_step l (swept now) = sweep t o l now

  abbrev pub table_run : Limiter R → List (Event R) → Limiter R
  table_run l [] = l
  table_run l (e ∷ es) = table_run (table_step l e) es

  abbrev IsBounded : Limiter R → Type 0
  IsBounded l = count_ip l.accounts ≤ t.max_keys

  admitted-IsBounded :
      (l : Limiter R) (key : Bytes) (plan : Plan R) (class : RequestClass) (best number : ℕ)
      (now : Time) (known : Option (Account R))
      → lookup key l.accounts ≡ known
      → IsBounded l
      → IsBounded (admit_found t o l (key_or t o l key plan known) plan class best number now).0
  admitted-IsBounded l key plan class best number now (some k) e h =
      omega (arith, count_ip-known key _ k l.accounts e)
  admitted-IsBounded l key plan class best number now none e h =
      elim (Bool-cases (is_crowded t o l key)) [ inl c ↦ rw c h | inr c ↦ rw c (roomy c h _) ]
    where
      roomy :
          is_crowded t o l key ≡ false
          → IsBounded l
          → (k : Account R) → count_ip (assign key k l.accounts) ≤ t.max_keys
      roomy c h k = elim (Bool-cases (has_prefix key (codes "ip:"))) [
        | inl p ↦
            let small : length l.accounts < t.max_keys = ground (arith, (rw p at c)) in
            let n =
              subst
                (λ (b : Bool).
                  count_ip (assign key k l.accounts) ≤ (if b then 1 else 0) + count_ip l.accounts)
                p (count_ip-assign key k l.accounts) in
            omega (arith, count_ip-le l.accounts)
        | inr p ↦
            let n =
              subst
                (λ (b : Bool).
                  count_ip (assign key k l.accounts) ≤ (if b then 1 else 0) + count_ip l.accounts)
                p (count_ip-assign key k l.accounts) in
            omega arith
      ]

  allowed-IsBounded :
      (l : Limiter R) (key : Bytes) (plan : Plan R) (class : RequestClass) (best number : ℕ)
      (now : Time) (b : Option Beyond) (w : Option WindowName)
      → IsBounded l
      → IsBounded (admit_allowed t o l key plan class best number now b w).0
  unfolding find_key
  allowed-IsBounded l key plan class best number now (some b) w h = h
  allowed-IsBounded l key plan class best number now none (some w) h = h
  allowed-IsBounded l key plan class best number now none none h =
      admitted-IsBounded l key plan class best number now (lookup key l.accounts) refl h

  worked-IsBounded :
      (l : Limiter R) (slot : Slot) (g : Account R → Account R) (known : Option (Account R))
      → account_at l slot ≡ known
      → IsBounded l
      → IsBounded (work_at l slot g known)
  worked-IsBounded l slot g none e h = h
  worked-IsBounded l (of_key key) g (some k) e h =
      omega (arith, count_ip-known key (g k) k l.accounts e)
  worked-IsBounded l shared g (some k) e h = h

  count_ip-tick :
      (now : Time) (ks : List (Bytes × Account R)) → count_ip (tick_all t o now ks) ≡ count_ip ks
  count_ip-tick now [] = refl
  count_ip-tick now ((id, k) ∷ ks) =
      ap (λ n. (if has_prefix id (codes "ip:") then 1 else 0) + n) (count_ip-tick now ks)

  count_ip-sweep :
      (now : Time) (ks : List (Bytes × Account R)) → count_ip (sweep_all t o now ks) ≤ count_ip ks
  unfolding sweep_all
  count_ip-sweep now [] = omega arith
  count_ip-sweep now ((id, k) ∷ ks) =
      let ih = count_ip-sweep now ks in
      if_cases (λ (m : List (Bytes × Account R)). count_ip m ≤ count_ip ((id, k) ∷ ks))
        (not (is_nil k.flights)) (λ e. omega arith)
        (λ e.
          if_cases (λ (m : List (Bytes × Account R)). count_ip m ≤ count_ip ((id, k) ∷ ks))
            (is_full t o (refill_account k now)) (λ g. omega arith) (λ g. omega arith))

  step-IsBounded : (l : Limiter R) (e : Event R) → IsBounded l → IsBounded (table_step l e)
  unfolding admit_client tick sweep
  step-IsBounded l (requested key plan class best number now) h =
      allowed-IsBounded l key plan class best number now _ _ h
  step-IsBounded l (worked slot g) h = worked-IsBounded l slot g (account_at l slot) refl h
  step-IsBounded l (ticked now) h = omega (arith, count_ip-tick now l.accounts)
  step-IsBounded l (swept now) h = omega (arith, count_ip-sweep now l.accounts)

  -- From a table with no more accounts of anonymous clients than it may keep, no requests, changes of
  -- requests in flight, ticks and sweeps lead to one with more.
  pub table_run_bounded :
      (l : Limiter R) (events : List (Event R))
      → count_ip l.accounts ≤ t.max_keys
      → count_ip (table_run l events).accounts ≤ t.max_keys
  table_run_bounded l [] h = h
  table_run_bounded l (e ∷ es) h = table_run_bounded (table_step l e) es (step-IsBounded l e h)
