-- ===== src/App/TxnPins/Lifetime.antt =====
-- How long a pin lives: at least `ttl`, and less than three times `ttl`, whatever else is remembered
-- and recalled in between.
use algod_loadb_mesh.Base.{
  ◌+◌, ◌≤◌, ◌<◌, ◌≡◌, refl, ◌∙◌, ◌⊎◌, inl, inr, false, none, some, List, [], ◌∷◌, arith, if_cases,
  Time, max_duration, Bytes, eqb, lookup, lookup-put,
}
use algod_loadb_mesh.App.TxnPins.{TxnPins, rotate, remember, found, recall}

-- An operation on the pins, with its time.
pub data Use : Type 0 where
  remembers : Bytes → Bytes → Time → Use
  recalls : Bytes → Time → Use

abbrev pub use_time : Use → Time
use_time (remembers txid upstream now) = now
use_time (recalls txid now) = now

abbrev pub apply_use : TxnPins → Use → TxnPins
apply_use p (remembers txid upstream now) = remember p txid upstream now
apply_use p (recalls txid now) = (recall p txid now).0

abbrev pub run_uses : TxnPins → List Use → TxnPins
run_uses p [] = p
run_uses p (x ∷ xs) = run_uses (apply_use p x) xs

-- The use does not pin `txid`.
abbrev pub Spares : Bytes → Use → Type 0
Spares txid (remembers other upstream now) = eqb other txid ≡ false
Spares txid (recalls other now) = Unit {0}

-- The uses are in the order of their times, from `t` to `now`, and none pins `txid`.
abbrev pub Between : Bytes → Time → Time → List Use → Type 0
Between txid t now [] = t ≤ now
Between txid t now (x ∷ xs) = (t ≤ use_time x) × Spares txid x × Between txid (use_time x) now xs

pub use-ttl : (p : TxnPins) (x : Use) → (apply_use p x).ttl ≡ p.ttl
unfolding recall remember rotate
use-ttl p (remembers other upstream s) = ground arith
use-ttl p (recalls other s) = ground arith

pub run-ttl : (p : TxnPins) (xs : List Use) → (run_uses p xs).ttl ≡ p.ttl
run-ttl p [] = refl
run-ttl p (x ∷ xs) = run-ttl (apply_use p x) xs ∙ use-ttl p x

module _ (txid up : Bytes) (t : Time) where
  -- The pin made at `t` is there to be found at any time before `t + ttl`.
  abbrev IsHeld : TxnPins → Type 0
  IsHeld p =
      ((p.rotated ≤ t) × (t < p.rotated + p.ttl) × (lookup txid p.cur ≡ some up))
      ⊎ ((t ≤ p.rotated) × (lookup txid p.cur ≡ none) × (lookup txid p.prev ≡ some up))

  rotate-IsHeld : (p : TxnPins) (s : Time) → t ≤ s → s < t + p.ttl → IsHeld p → IsHeld (rotate p s)
  unfolding rotate lookup
  rotate-IsHeld p s le lt (inl h) = ground arith
  rotate-IsHeld p s le lt (inr h) = ground arith

  remember-IsHeld :
      (p : TxnPins) (other upstream : Bytes) (s : Time)
      → eqb other txid ≡ false
      → t ≤ s
      → s < t + p.ttl
      → IsHeld p
      → IsHeld (remember p other upstream s)
  unfolding remember lookup
  remember-IsHeld p other upstream s away le lt h =
      if_cases IsHeld (eqb other []) (λ e. h) (λ e. let r = rotate-IsHeld p s le lt h in rw away r)

  use-IsHeld :
      (p : TxnPins) (x : Use)
      → Spares txid x
      → t ≤ use_time x
      → use_time x < t + p.ttl
      → IsHeld p
      → IsHeld (apply_use p x)
  unfolding recall
  use-IsHeld p (remembers other upstream s) away le lt h =
      remember-IsHeld p other upstream s away le lt h
  use-IsHeld p (recalls other s) away le lt h = rotate-IsHeld p s le lt h

  Between-le : (s now : Time) (xs : List Use) → Between txid s now xs → s ≤ now
  Between-le s now [] h = h
  Between-le s now (x ∷ xs) h =
      let le = Between-le (use_time x) now xs h.2 in omega (arith, h.0, le)

  run-IsHeld :
      (p : TxnPins) (s now : Time) (xs : List Use)
      → t ≤ s
      → Between txid s now xs
      → now < t + p.ttl
      → IsHeld p
      → IsHeld (run_uses p xs)
  run-IsHeld p s now [] le b lt h = h
  run-IsHeld p s now (x ∷ xs) le b lt h =
      let later = Between-le (use_time x) now xs b.2 in
      run-IsHeld (apply_use p x) (use_time x) now xs (omega (arith, le, b.0)) b.2
        (rw (use-ttl p x) lt)
        (use-IsHeld p x b.1 (omega (arith, le, b.0)) (omega (arith, lt, later)) h)

  found-IsHeld : (p : TxnPins) → IsHeld p → found p txid ≡ some up
  unfolding found
  found-IsHeld p (inl h) = rw h.2 refl
  found-IsHeld p (inr h) = rw (h.1, h.2) refl

  start-IsHeld :
      (p : TxnPins)
      → p.rotated ≤ t
      → 0 < p.ttl
      → eqb txid [] ≡ false
      → p.ttl < max_duration
      → IsHeld (remember p txid up t)
  unfolding remember rotate
  start-IsHeld p old some_time named small =
      let e = lookup-put txid up in ground (arith, e p.cur, e [])

  -- A transaction pinned at `t` is recalled at any time before `t + ttl`, whatever other
  -- transactions are pinned and whatever is recalled in between, in the order of time.
  pub recall_held :
      (p : TxnPins) (xs : List Use) (now : Time)
      → p.rotated ≤ t
      → 0 < p.ttl
      → p.ttl < max_duration
      → eqb txid [] ≡ false
      → Between txid t now xs
      → now < t + p.ttl
      → (recall (run_uses (remember p txid up t) xs) txid now).1 ≡ some up
  unfolding recall
  recall_held p xs now old some_time small named b lt =
      let p₀ = remember p txid up t in
      let kept : p₀.ttl ≡ p.ttl = use-ttl p (remembers txid up t) in
      let h =
        run-IsHeld p₀ t now xs (omega arith) b (rw kept lt)
          (start-IsHeld p old some_time named small) in
      found-IsHeld (rotate (run_uses p₀ xs) now) (
        rotate-IsHeld (run_uses p₀ xs) now (Between-le t now xs b) (rw (run-ttl p₀ xs ∙ kept) lt) h)
