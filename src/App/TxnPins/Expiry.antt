-- ===== src/App/TxnPins/Expiry.antt =====
-- When a pin is gone: three times `ttl` after it was made, whatever else is remembered and recalled
-- in between.
use algod_loadb_mesh.Base.{
  ◌+◌, ◌*◌, ◌≤◌, ◌<◌, ◌≡◌, ◌∙◌, true, false, none, List, [], ◌∷◌, arith, is_some, if_cases, Time,
  max_duration, Bytes, eqb, lookup,
}
use algod_loadb_mesh.App.TxnPins.{TxnPins, rotate, remember, found, recall}
use algod_loadb_mesh.App.TxnPins.Lifetime.{
  Use, remembers, recalls, use_time, apply_use, run_uses, Spares, Between, use-ttl, run-ttl,
}

module _ (txid : Bytes) (t : Time) where
  -- The newer generation holds `txid` only if it began by `t`, the older one only if it was rotated
  -- before `t + 2 * ttl`.
  abbrev IsDated : TxnPins → Type 0
  IsDated p =
      (is_some (lookup txid p.cur) ≡ true → p.rotated ≤ t)
      × (is_some (lookup txid p.prev) ≡ true → p.rotated < t + 2 * p.ttl)

  rotate-IsDated :
      (p : TxnPins) (s : Time)
      → 0 < p.ttl
      → 2 * p.ttl < max_duration
      → IsDated p
      → IsDated (rotate p s)
  unfolding rotate lookup
  rotate-IsDated p s some_time small h = (ground (arith, h.0, h.1), ground (arith, h.0, h.1))

  use-IsDated :
      (p : TxnPins) (x : Use)
      → Spares txid x
      → 0 < p.ttl
      → 2 * p.ttl < max_duration
      → IsDated p
      → IsDated (apply_use p x)
  unfolding recall remember lookup
  use-IsDated p (remembers other upstream s) away some_time small h =
      if_cases IsDated (eqb other []) (λ e. h)
        (λ e. let r = rotate-IsDated p s some_time small h in rw away r)
  use-IsDated p (recalls other s) away some_time small h = rotate-IsDated p s some_time small h

  run-IsDated :
      (p : TxnPins) (s now : Time) (xs : List Use)
      → Between txid s now xs
      → 0 < p.ttl
      → 2 * p.ttl < max_duration
      → IsDated p
      → IsDated (run_uses p xs)
  run-IsDated p s now [] b some_time small h = h
  run-IsDated p s now (x ∷ xs) b some_time small h =
      run-IsDated (apply_use p x) (use_time x) now xs b.2 (rw (use-ttl p x) some_time)
        (rw (use-ttl p x) small) (use-IsDated p x b.1 some_time small h)

  start-IsDated :
      (p : TxnPins) (up : Bytes)
      → p.rotated ≤ t
      → 0 < p.ttl
      → eqb txid [] ≡ false
      → IsDated (remember p txid up t)
  unfolding remember rotate
  start-IsDated p up old some_time named = (ground arith, ground arith)

  found-late :
      (p : TxnPins) (now : Time)
      → 0 < p.ttl
      → 2 * p.ttl < max_duration
      → IsDated p
      → t + 3 * p.ttl ≤ now
      → found (rotate p now) txid ≡ none
  unfolding found rotate lookup
  found-late p now some_time small h late = ground (arith, h.0, h.1)

  -- A transaction pinned at `t` and not again is not recalled from `t + 3 * ttl` on.
  pub recall_expired :
      (p : TxnPins) (up : Bytes) (xs : List Use) (now : Time)
      → p.rotated ≤ t
      → 0 < p.ttl
      → 2 * p.ttl < max_duration
      → eqb txid [] ≡ false
      → Between txid t now xs
      → t + 3 * p.ttl ≤ now
      → (recall (run_uses (remember p txid up t) xs) txid now).1 ≡ none
  unfolding recall
  recall_expired p up xs now old some_time small named b late =
      let p₀ = remember p txid up t in
      let kept : p₀.ttl ≡ p.ttl = use-ttl p (remembers txid up t) in
      let all_kept : (run_uses p₀ xs).ttl ≡ p.ttl = run-ttl p₀ xs ∙ kept in
      let h =
        run-IsDated p₀ t now xs b (rw kept some_time) (rw kept small)
          (start-IsDated p up old some_time named) in
      found-late (run_uses p₀ xs) now (rw all_kept some_time) (rw all_kept small) h
        (rw all_kept late)
