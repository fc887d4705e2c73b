-- ===== src/Domain/Path/Policy.antt =====
-- The promises of the path policy.
use algod_loadb_mesh.Base.{
  ℕ, ◌+◌, ◌*◌, ◌<◌, ◌≡◌, refl, sym, ap, ◌∙◌, subst, ◌≢◌, ◌⊎◌, inl, inr, true, false, not, Option,
  none, some, List, arith, ◌==◌, ==_refl, Bool-cases, if_cases, Time, sub_time, get_elem?, All, pos,
  ◌≤ℤ◌,
}
use algod_loadb_mesh.App.Link.{stats}
use algod_loadb_mesh.Domain.Path.{
  PathStat, PathPolicy, Reason, keep_path, better, best_path, index_of, is_faster, start_path,
  keep_or_switch, choose_from, choose,
}
use algod_loadb_mesh.Domain.Path.Best.{IsAlive, NoBetter, best_path-IsAlive, best_path-NoBetter}

-- A chosen index is that of an alive path.
abbrev pub IsChosen : List PathStat → Option ℕ → Type 0
IsChosen stats none = Unit {0}
IsChosen stats (some i) = (s : PathStat) × (get_elem? stats i ≡ some s) × (s.alive ≡ true)

best : List PathStat → Option (ℕ × PathStat)
best stats = best_path none 0 stats

best-IsAlive : (stats : List PathStat) → IsAlive stats (best stats)
unfolding best
best-IsAlive stats =
    best_path-IsAlive stats none 0 stats (λ j. let e : 0 + j ≡ j = omega arith in rw e) tt

best-NoBetter : (stats : List PathStat) → All (NoBetter (best stats)) stats
unfolding best
best-NoBetter stats = best_path-NoBetter none 0 stats

start-IsChosen :
    (stats : List PathStat) (b : Option (ℕ × PathStat))
    → IsAlive stats b
    → IsChosen stats (start_path b).0
start-IsChosen stats none h = tt
start-IsChosen stats (some (i, s)) h = (s, h.0, h.1)

index-IsChosen :
    (stats : List PathStat) (b : Option (ℕ × PathStat))
    → IsAlive stats b
    → IsChosen stats (index_of b)
index-IsChosen stats none h = tt
index-IsChosen stats (some (i, s)) h = (s, h.0, h.1)

module _ (p : PathPolicy) (now : Time) (stats : List PathStat) (since : Time) where
  keep-IsChosen :
      (cur : ℕ) (c : PathStat) (b : Option (ℕ × PathStat))
      → get_elem? stats cur ≡ some c
      → c.alive ≡ true
      → IsAlive stats b
      → IsChosen stats (keep_or_switch p now cur c since b).0
  keep-IsChosen cur c none e a h = (c, e, a)
  keep-IsChosen cur c (some (i, s)) e a h =
      if_cases (λ (r : Option ℕ × Reason). IsChosen stats r.0) (i == cur) (λ k. (c, e, a))
        (λ k.
          if_cases (λ (r : Option ℕ × Reason). IsChosen stats r.0) (is_faster p now c s since)
            (λ f. (s, h.0, h.1)) (λ f. (c, e, a)))

  from-IsChosen :
      (cur : ℕ) (c : Option PathStat) (b : Option (ℕ × PathStat))
      → get_elem? stats cur ≡ c
      → IsAlive stats b
      → IsChosen stats (choose_from p now cur c since b).0
  from-IsChosen cur none b e h = start-IsChosen stats b h
  from-IsChosen cur (some c) b e h =
      if_cases (λ (r : Option ℕ × Reason). IsChosen stats r.0) (not c.alive)
        (λ k. index-IsChosen stats b h) (λ k. keep-IsChosen cur c b e (ground arith) h)

  -- The policy only ever chooses a path of the link that is alive.
  pub choose_alive : (cur : Option ℕ) → IsChosen stats (choose p now stats cur since).0
  unfolding choose best
  choose_alive none = start-IsChosen stats (best stats) (best-IsAlive stats)
  choose_alive (some cur) =
      from-IsChosen cur (get_elem? stats cur) (best stats) refl (best-IsAlive stats)

  start-none : (b : Option (ℕ × PathStat)) → (start_path b).0 ≡ none → b ≡ none
  start-none none e = refl
  start-none (some b) e = cc

  from-none :
      (cur : ℕ) (c : Option PathStat) (b : Option (ℕ × PathStat))
      → (choose_from p now cur c since b).0 ≡ none
      → b ≡ none
  from-none cur none b e = start-none b e
  from-none cur (some c) none e = refl
  from-none cur (some c) (some b) e = ground arith

  all_dead : best stats ≡ none → All (λ s. s.alive ≡ false) stats
  all_dead e = subst (λ b. All (NoBetter b) stats) e (best-NoBetter stats)

  -- No path is chosen only when every path of the link is dead.
  pub choose-none :
      (cur : Option ℕ) → (choose p now stats cur since).0 ≡ none → All (λ s. s.alive ≡ false) stats
  unfolding choose best
  choose-none none e = all_dead (start-none _ e)
  choose-none (some cur) e = all_dead (from-none cur (get_elem? stats cur) _ e)

  faster-facts :
      (c s : PathStat)
      → is_faster p now c s since ≡ true
      → (0 < s.rtt) × (4 * s.rtt < 3 * c.rtt) × (pos (2 * p.probe_interval) ≤ℤ sub_time now since)
  faster-facts c s h = ground arith

  -- What leaving path `c` for path `i` takes.
  abbrev pub IsBetterPath : PathStat → ℕ → Type 0
  IsBetterPath c i =
      (b : PathStat) × (get_elem? stats i ≡ some b)
      × (b.alive ≡ true)
      × (0 < b.rtt)
      × (4 * b.rtt < 3 * c.rtt)
      × (pos (2 * p.probe_interval) ≤ℤ sub_time now since)

  -- The policy keeps the path or leaves it for a better one.
  abbrev pub IsKeptOrBetter : ℕ → PathStat → Option ℕ → Type 0
  IsKeptOrBetter cur c r = (r ≡ some cur) ⊎ ((i : ℕ) × (r ≡ some i) × IsBetterPath c i)

  switch-IsKeptOrBetter :
      (cur : ℕ) (c : PathStat) (b : Option (ℕ × PathStat))
      → IsAlive stats b
      → IsKeptOrBetter cur c (keep_or_switch p now cur c since b).0
  switch-IsKeptOrBetter cur c none h = inl refl
  switch-IsKeptOrBetter cur c (some (k, s)) h = elim (Bool-cases (k == cur)) [
    | inl e ↦ rw e (inl refl)
    | inr e ↦ elim (Bool-cases (is_faster p now c s since)) [
      | inl g ↦
          let f = faster-facts c s g in rw e (rw g (inr (k, refl, (s, h.0, h.1, f.0, f.1, f.2))))
      | inr g ↦ rw e (rw g (inl refl))
    ]
  ]

  -- A working path is kept, or left for an alive and measured one that is faster by the margin, and
  -- that only once two probe intervals have passed since the last switch.
  pub choose_leaves :
      (cur : ℕ) (c : PathStat)
      → get_elem? stats cur ≡ some c
      → c.alive ≡ true
      → IsKeptOrBetter cur c (choose p now stats (some cur) since).0
  unfolding choose best
  choose_leaves cur c e a =
      rw (e, choose_from, a) (switch-IsKeptOrBetter cur c (best stats) (best-IsAlive stats))

  start-index : (b : Option (ℕ × PathStat)) → (start_path b).0 ≡ index_of b
  start-index none = refl
  start-index (some (i, s)) = refl

  moved-index :
      (k i : ℕ) (c : PathStat) (b : Option (ℕ × PathStat))
      → (keep_or_switch p now k c since b).0 ≡ some i
      → k ≢ i
      → index_of b ≡ some i
  moved-index k i c none r other = absurd (ground arith)
  moved-index k i c (some (j, s)) r other = ground arith

  from-index :
      (k i : ℕ) (c : Option PathStat) (b : Option (ℕ × PathStat))
      → (choose_from p now k c since b).0 ≡ some i
      → k ≢ i
      → index_of b ≡ some i
  from-index k i none b r other = sym (start-index b) ∙ r
  from-index k i (some c) b r other = elim (Bool-cases c.alive) [
    | inl a ↦ moved-index k i c b (ground arith) other
    | inr a ↦ ground arith
  ]

  -- A path other than the current one is chosen as the best of the alive ones.
  new-index :
      (cur : Option ℕ) (i : ℕ)
      → (choose p now stats cur since).0 ≡ some i
      → cur ≢ some i
      → index_of (best stats) ≡ some i
  unfolding choose best
  new-index none i r other = sym (start-index _) ∙ r
  new-index (some k) i r other =
      from-index k i (get_elem? stats k) (best stats) r (λ e. other (ap some e))

  found :
      (b : Option (ℕ × PathStat)) (i : ℕ)
      → IsAlive stats b
      → All (NoBetter b) stats
      → index_of b ≡ some i
      → (s : PathStat) × (b ≡ some (i, s))
        × (get_elem? stats i ≡ some s)
        × (s.alive ≡ true)
        × All (λ t. t.alive ≡ true → better t s ≡ false) stats
  found none i h n e = cc
  found (some (j, s)) i h n e = let k : j ≡ i = ground arith in (s, rw k, rw k at h.0, h.1, n)

  -- A newly chosen path is measured no worse than any alive one.
  pub choose_best :
      (cur : Option ℕ) (i : ℕ)
      → (choose p now stats cur since).0 ≡ some i
      → cur ≢ some i
      → (b : PathStat) × (get_elem? stats i ≡ some b)
        × All (λ s. s.alive ≡ true → better s b ≡ false) stats
  choose_best cur i r other =
      let (s, e, at_i, alive, least) =
        found (best stats) i (best-IsAlive stats) (best-NoBetter stats) (new-index cur i r other) in
      (s, at_i, least)

  stays :
      (i : ℕ) (s : PathStat) (later switched : Time)
      → s.alive ≡ true
      → choose_from p later i (some s) switched (some (i, s)) ≡ (some i, keep_path)
  stays i s later switched alive = let here = ==_refl i in ground arith

  -- The policy does not flap: on unchanged measurements it keeps a newly chosen path for good.
  pub choose_stable :
      (cur : Option ℕ) (i : ℕ)
      → (choose p now stats cur since).0 ≡ some i
      → cur ≢ some i
      → (later switched : Time) → choose p later stats (some i) switched ≡ (some i, keep_path)
  unfolding choose best
  choose_stable cur i r other later switched =
      let (s, e, at_i, alive, least) =
        found (best stats) i (best-IsAlive stats) (best-NoBetter stats) (new-index cur i r other) in
      subst (λ o. choose_from p later i o switched (best stats) ≡ (some i, keep_path)) (sym at_i)
        (subst (λ b. choose_from p later i (some s) switched b ≡ (some i, keep_path)) (sym e)
          (stays i s later switched alive))
