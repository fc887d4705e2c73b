-- ===== src/App/Limiter/Saved/Lowered.antt =====
-- What loading the saved allowances does to the clients that are known.
use algod_loadb_mesh.Base.{
  ◌≡◌, false, Option, none, some, List, [], ◌∷◌, Time, Bytes, lookup, Float,
}
use algod_loadb_mesh.App.Account.{Account, LimiterOptions, refill_account}
use algod_loadb_mesh.App.Identity.{TableOptions}
use algod_loadb_mesh.App.Limiter.{Limiter}
use algod_loadb_mesh.App.Limiter.Saved.{SavedBuckets, restored}
use algod_loadb_mesh.Domain.Plan.{Plan}

module _ {R : Type 0} ⦃f : Float R⦄ (t : TableOptions) (o : LimiterOptions R)
    (plans : List (Bytes × Plan R)) (now : Time) where
  -- No level of `k` is above that of `j`.
  pub record HasNoMore (j k : Account R) : Type 0 where
    pub within_minute : f.lt j.minute.level k.minute.level ≡ false
    pub within_day : f.lt j.day.level k.day.level ≡ false

  -- How an account comes out of a load, with what the file has of its key and the plan of that: as it
  -- was, without either, or else with its requests in flight and within both what it had, refilled, and
  -- what was saved, refilled under the plan.
  abbrev pub IsLoaded :
      Bytes → Account R → Option (SavedBuckets R) → Option (Plan R) → Account R → Type 0
  IsLoaded key k none plan k' = k' ≡ k
  IsLoaded key k (some s) none k' = k' ≡ k
  IsLoaded key k (some s) (some plan) k' =
      (k'.flights ≡ k.flights)
      × HasNoMore (refill_account k now) k'
      × HasNoMore (restored t o plans key plan s now) k'

  -- The file is a map: a key is there once.
  abbrev pub AreApart : List (Bytes × SavedBuckets R) → Type 0
  AreApart [] = Unit {0}
  AreApart ((id, s) ∷ file) = (lookup id file ≡ none) × AreApart file
