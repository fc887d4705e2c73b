-- ===== src/App/Monitor/Oldest/Least.antt =====
-- The search finds the oldest round that a node serves, and both checks agree on it.
use algod_loadb_mesh.Base.{
  ℕ, zero, suc, ◌+◌, ◌-◌, ◌/◌, ◌^◌, ◌≤◌, ◌<◌, ◌≡◌, refl, sym, ap, ◌∙◌, subst, inl, inr, Bool, true,
  false, false≢true, not, ◌||◌, Option, some, arith, ltb, ◌==◌, ltb→lt, Bool-cases, if_cases,
}
use algod_loadb_mesh.App.Monitor.{LocalState}
use algod_loadb_mesh.App.Monitor.Oldest.{
  Searched, oldest, measured_archival, note_measured, note_searched, sets_archival, bisect,
  search_below, probe_oldest, check_edge, verify_oldest,
}
use algod_loadb_mesh.Domain.Capabilities.{oldest_round_for, CapabilityOverrides}
use algod_loadb_mesh.Domain.Plan.{full}

-- A node that answers, and serves every round from some round on.
pub record IsServing (has_block : ℕ → Option Bool) (served : ℕ → Bool) : Type 0 where
  pub answers_all : (r : ℕ) → has_block r ≡ some (served r)
  pub goes_on : (r s : ℕ) → r ≤ s → served r ≡ true → served s ≡ true

abbrev pub IsOldest : (ℕ → Bool) → ℕ → Type 0
IsOldest served m = (served m ≡ true) × ((r : ℕ) → r < m → served r ≡ false)

module _ (has_block : ℕ → Option Bool) (served : ℕ → Bool) (w : IsServing has_block served) where
  below_gap : (lo r : ℕ) → served lo ≡ false → r ≤ lo → served r ≡ false
  below_gap lo r e h = elim (Bool-cases (served r)) [
    | inl k ↦ absurd (false≢true (sym e ∙ w.goes_on r lo h k))
    | inr k ↦ k
  ]

  abbrev FindsOldest : Searched → Type 0
  FindsOldest s = (m : ℕ) × (s ≡ oldest m) × IsOldest served m

  ends :
      (lo hi : ℕ)
      → served lo ≡ false
      → served hi ≡ true
      → lo < hi
      → hi - lo ≤ 1
      → FindsOldest (oldest hi)
  ends lo hi a b l h = (hi, refl, (b, λ r k. below_gap lo r a (omega arith)))

  -- A distance of 2 ^ fuel at most is searched within the fuel.
  bisect-FindsOldest :
      (fuel lo hi : ℕ)
      → served lo ≡ false
      → served hi ≡ true
      → lo < hi
      → hi - lo ≤ 2 ^ fuel
      → FindsOldest (bisect has_block fuel lo hi)
  unfolding bisect
  bisect-FindsOldest zero lo hi a b l h =
      let stop : ltb 1 (hi - lo) ≡ false = ground arith in rw stop (ends lo hi a b l (omega arith))
  bisect-FindsOldest (suc fuel) lo hi a b l h = elim (Bool-cases (ltb 1 (hi - lo))) [
    | inr e ↦ rw e (ends lo hi a b l (ground arith))
    | inl e ↦
        let mid = lo + (hi - lo) / 2 in
        let far = ltb→lt 1 (hi - lo) e in
        elim (Bool-cases (served mid)) [
          | inl k ↦ rw e (
              rw (w.answers_all mid)
                (rw k (bisect-FindsOldest fuel lo mid a k (omega arith) (omega arith))))
          | inr k ↦ rw e (
              rw (w.answers_all mid)
                (rw k (bisect-FindsOldest fuel mid hi k b (omega arith) (omega arith))))
        ]
  ]

  search_below-FindsOldest :
      (last : ℕ)
      → served 0 ≡ false
      → served last ≡ true
      → last < 2 ^ 64
      → FindsOldest (search_below has_block last (has_block last))
  search_below-FindsOldest last a b h = elim (Bool-cases (last == 0)) [
    | inl z ↦ let e : last ≡ 0 = ground arith in absurd (false≢true (sym a ∙ (rw e at b)))
    | inr z ↦
        rw (w.answers_all last)
          (rw b (bisect-FindsOldest 64 0 last a b (ground arith) (omega arith)))
  ]

  probe_oldest-FindsOldest :
      (last : ℕ) → served last ≡ true → last < 2 ^ 64 → FindsOldest (probe_oldest has_block last)
  unfolding probe_oldest
  probe_oldest-FindsOldest last b h = elim (Bool-cases (served 0)) [
    | inl z ↦ rw (w.answers_all 0) (rw z (0, refl, (z, λ r k. absurd (omega arith))))
    | inr z ↦ rw (w.answers_all 0) (rw z (search_below-FindsOldest last z b h))
  ]

  IsOldest-unique : (m k : ℕ) → IsOldest served m → IsOldest served k → m ≡ k
  IsOldest-unique m k a b = elim (Bool-cases (ltb m k)) [
    | inl e ↦ absurd (false≢true (sym (b.1 m (ltb→lt m k e)) ∙ a.0))
    | inr e ↦ elim (Bool-cases (ltb k m)) [
      | inl g ↦ absurd (false≢true (sym (a.1 k (ltb→lt k m g)) ∙ b.0))
      | inr g ↦ ground arith
    ]
  ]

  below_edge : (last m : ℕ) → served last ≡ true → served (m - 1) ≡ false → m - 1 < last
  below_edge last m b e = elim (Bool-cases (ltb (m - 1) last)) [
    | inl k ↦ ltb→lt (m - 1) last k
    | inr k ↦ absurd (false≢true (sym e ∙ w.goes_on last (m - 1) (ground arith) b))
  ]

  check_edge-FindsOldest :
      (expected last : ℕ)
      → served last ≡ true
      → last < 2 ^ 64
      → FindsOldest (check_edge has_block expected last)
  unfolding check_edge
  check_edge-FindsOldest expected last b h = elim (Bool-cases (served expected)) [
    | inr k ↦ rw (w.answers_all expected) (rw k (probe_oldest-FindsOldest last b h))
    | inl k ↦ elim (Bool-cases (expected == 0)) [
      | inl z ↦
          let e : expected ≡ 0 = ground arith in
          rw (w.answers_all expected)
            (rw k (rw z (0, refl, ((rw e at k), λ r l. absurd (omega arith)))))
      | inr z ↦ elim (Bool-cases (served (expected - 1))) [
        | inl q ↦ rw (w.answers_all expected) (
            rw k
              (rw z (rw (w.answers_all (expected - 1)) (rw q (probe_oldest-FindsOldest last b h)))))
        | inr q ↦ rw (w.answers_all expected) (
            rw k (
              rw z (
                rw (w.answers_all (expected - 1)) (
                  rw q (expected, refl, (k, λ r l. below_gap (expected - 1) r q (ground arith)))))))
      ]
    ]
  ]

  -- On a node that answers and serves its last round, and with a round every later one, the search
  -- ends with the oldest round that it serves, and the check of an expected edge gives the same.
  pub probe_oldest_least :
      (expected last : ℕ)
      → served last ≡ true
      → last < 2 ^ 64
      → (m : ℕ) × (probe_oldest has_block last ≡ oldest m)
        × (check_edge has_block expected last ≡ oldest m)
        × IsOldest served m
  probe_oldest_least expected last b h =
      let (m, e, x) = probe_oldest-FindsOldest last b h in
      let (k, g, y) = check_edge-FindsOldest expected last b h in
      (m, e, g ∙ ap oldest (IsOldest-unique k m y x), x)

  note_measured-ge : (m : ℕ) (s : LocalState) → m ≤ (note_measured m s).caps.oldest_round
  unfolding note_measured
  note_measured-ge m s = elim (Bool-cases (ltb s.caps.oldest_round m)) [
    | inr e ↦ rw e (ground arith)
    | inl e ↦ rw e (
        if_cases (λ (x : ℕ). m ≤ x) (ltb (oldest_round_for (measured_archival m s) s.last_round) m)
          (λ k. omega arith) (λ k. ground arith))
  ]

  serves_from :
      (m : ℕ) (x : Searched) (s : LocalState) (r : ℕ)
      → x ≡ oldest m
      → IsOldest served m
      → (note_searched x s).caps.oldest_round ≤ r
      → served r ≡ true
  serves_from m x s r e y h =
      w.goes_on m r
        (le_trans (note_measured-ge m s)
          (subst (λ q. (note_searched q s).caps.oldest_round ≤ r) e h))
        y.0
    where
      le_trans : {a b c : ℕ} → a ≤ b → b ≤ c → a ≤ c
      le_trans p q = omega arith

  -- Right after a verification the node claims no round that it does not serve: if it answers, serves
  -- its last round and goes on serving the rounds from one that it serves on, and no override sets the
  -- archival mode, then every round from the oldest one on is served, whatever the configuration says.
  pub verify_oldest_served :
      (ov : Option CapabilityOverrides) (full : Bool) (st s : LocalState) (r : ℕ)
      → sets_archival ov ≡ false
      → st.online ≡ true
      → (st.last_round == 0) ≡ false
      → st.last_round < 2 ^ 64
      → served st.last_round ≡ true
      → (verify_oldest has_block ov full st s).caps.oldest_round ≤ r
      → served r ≡ true
  unfolding verify_oldest
  verify_oldest_served ov full st s r a b c d e h =
      let (m, p, q, y) = probe_oldest_least st.caps.oldest_round st.last_round e d in
      let h' = (rw (a, b, c) at h) in
      elim (Bool-cases (full || not st.verified)) [
        | inl k ↦ serves_from m _ s r p y (rw k at h')
        | inr k ↦ serves_from m _ s r q y (rw k at h')
      ]
