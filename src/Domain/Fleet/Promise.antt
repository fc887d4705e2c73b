-- ===== src/Domain/Fleet/Promise.antt =====
-- What the fleet's answer to GET /v2/transactions/simulate/limits promises: one eligible node keeps
-- all of it.
use algod_loadb_mesh.Base.{
  ℕ, ◌≤◌, ◌<◌, ◌≡◌, refl, sym, ◌∙◌, inl, inr, Bool, true, false, false≢true, ◌&&◌, Option, none,
  some, List, [], ◌∷◌, arith, ltb, ◌==◌, Bool-cases, is_some, All, Among, Among-All, word,
}
use algod_loadb_mesh.Domain.Capabilities.{simulate_limits}
use algod_loadb_mesh.Domain.Capabilities.Laws.{simulate_limits-IsClamped}
use algod_loadb_mesh.Domain.Eligible.{eligible}
use algod_loadb_mesh.Domain.Eligible.Laws.{CanRun-of_fits, eligible_iff}
use algod_loadb_mesh.Domain.Eligible.Spec.{OnSome, IsCurrent, first_round, HoldsRound}
use algod_loadb_mesh.Domain.Fleet.{
  FleetSimulateLimitsReply, plain, Found, better_than, note, search_fleet, reply_of,
  fleet_simulate_limits,
}
use algod_loadb_mesh.Domain.Request.{
  RoundWindow, window_block, window_state, SimulateNeeds, RequestClass, fits, SimulateBody,
  base_needs, span_of, empty_span, apply_span, apply_simulate,
}
use algod_loadb_mesh.Domain.Upstream.{Upstream}

-- The needs that the answer allows. A dtalgorand option needs no more than a node that reports
-- limits.
pub record IsAllowed (l : FleetSimulateLimitsReply) (n : SimulateNeeds) : Type 0 where
  pub groups_le : n.groups ≤ l.max_txn_groups
  pub rounds_le : n.rounds ≤ l.max_rounds
  pub budget_le : n.extra_opcode_budget ≤ l.max_extra_opcode_budget
  pub developer : n.developer_api ≡ true → l.developer_api ≡ true

-- The class of a simulation at a round, or at none, with these needs.
abbrev class_at : Option ℕ → RoundWindow → Bool → ℕ → SimulateNeeds → RequestClass
class_at r w h hi n = record plain {
  round = r;
  round_window = w;
  history_any_round = h;
  round_high = hi;
  sim_needs = some n;
}

module _ {R : Type 0} where
  -- The upstream has the rounds that the class names, the highest of which is `round_high`.
  abbrev pub IsHeld : Upstream R → RequestClass → Type 0
  IsHeld u d =
      OnSome (λ r. (first_round u d ≤ r) × (r ≤ u.last_round) × (d.round_high ≤ u.last_round))
        d.round

module _ {R : Type 0} (best tol : ℕ) where
  -- `best` of the loop is an eligible upstream of `us` that reports limits.
  abbrev IsReporting : List (Upstream R) → Option (Upstream R) → Type 0
  IsReporting us none = Unit {0}
  IsReporting us (some u) =
      Among u us × (eligible u plain best tol ≡ true) × (is_some u.caps.simulate ≡ true)

  abbrev multiplier_of : Upstream R → ℕ
  multiplier_of u = (simulate_limits u.caps).resource_limit_multiplier

  multiplier_pos : (u : Upstream R) → 0 < multiplier_of u
  multiplier_pos u = (simulate_limits-IsClamped u.caps).multiplier_pos

  -- The multiplier found so far never rises, and 0 stands for none yet.
  note-multiplier :
      (s : Found R) (u : Upstream R)
      → (0 < (note s u).multiplier)
        × ((note s u).multiplier ≤ multiplier_of u)
        × (0 < s.multiplier → (note s u).multiplier ≤ s.multiplier)
  unfolding note
  note-multiplier s u = let p = multiplier_pos u in (ground arith, ground arith, λ h. ground arith)

  search-multiplier :
      (s t : Found R) (us : List (Upstream R))
      → search_fleet best tol s us ≡ t
      → (0 < s.multiplier → (0 < t.multiplier) × (t.multiplier ≤ s.multiplier))
        × All (λ u. eligible u plain best tol ≡ true → t.multiplier ≤ multiplier_of u) us
  unfolding search_fleet
  search-multiplier s t [] q = (λ h. (rw (← q) h, rw (← q) (omega arith)), tt)
  search-multiplier s t (u ∷ us) q = elim (Bool-cases (eligible u plain best tol)) [
    | inl e ↦
        let n = note-multiplier s u in
        let ih = search-multiplier (note s u) t us (rw (e, search_fleet) at q) in
        let h₀ = ih.0 n.0 in (λ h. (h₀.0, omega (arith, n.2 h)), ((λ x. omega arith), ih.1))
    | inr e ↦
        let ih = search-multiplier s t us (rw (e, search_fleet) at q) in
        (ih.0, ((λ x. absurd (false≢true (sym e ∙ x))), ih.1))
  ]

  note-IsReporting :
      (s : Found R) (u : Upstream R) (vs : List (Upstream R))
      → IsReporting vs s.best
      → Among u vs
      → eligible u plain best tol ≡ true
      → IsReporting vs (note s u).best
  unfolding note
  note-IsReporting s u vs h m e =
      elim (Bool-cases (is_some u.caps.simulate && better_than s.best u)) [
        | inl x ↦ rw x (m, e, ground arith)
        | inr x ↦ rw x h
      ]

  search-IsReporting :
      (s : Found R) (us vs : List (Upstream R))
      → IsReporting vs s.best
      → ((x : Upstream R) → Among x us → Among x vs)
      → IsReporting vs (search_fleet best tol s us).best
  unfolding search_fleet
  search-IsReporting s [] vs h sub = h
  search-IsReporting s (u ∷ us) vs h sub = elim (Bool-cases (eligible u plain best tol)) [
    | inl e ↦
        rw (e, search_fleet)
          (search-IsReporting (note s u) us vs (note-IsReporting s u vs h (sub u (inl refl)) e)
            (λ x m. sub x (inr m)))
    | inr e ↦ rw (e, search_fleet) (search-IsReporting s us vs h (λ x m. sub x (inr m)))
  ]

  note-none :
      (s : Found R) (u : Upstream R)
      → (note s u).best ≡ none
      → (s.best ≡ none) × (is_some u.caps.simulate ≡ false)
  unfolding note
  note-none s u e = ground arith

  class-eligible :
      (u : Upstream R) (r : Option ℕ) (w : RoundWindow) (h : Bool) (hi : ℕ) (n : SimulateNeeds)
      → u.last_round < word
      → eligible u plain best tol ≡ true
      → fits n u.caps ≡ true
      → IsHeld u (class_at r w h hi n)
      → eligible u (class_at r w h hi n) best tol ≡ true
  class-eligible u r w h hi n small e k has_rounds =
      let s = (eligible_iff u plain best tol small).0 e in
      (eligible_iff u (class_at r w h hi n) best tol small).1 (record {
        included = s.included;
        up = s.up;
        staying = s.staying;
        closed = s.closed;
        unthrottled = s.unthrottled;
        free = λ x. s.free (inl refl);
        at_home = λ x. s.at_home x;
        history = λ x. s.history x;
        rounds = holds r has_rounds (s.rounds refl);
        near = tt;
        developer = λ x. s.developer x;
        room = CanRun-of_fits n u.caps k;
        participates = λ x. s.participates x;
      })
    where
      holds :
          (r : Option ℕ)
          → IsHeld u (class_at r w h hi n)
          → IsCurrent u best tol
          → HoldsRound u (class_at r w h hi n) best tol r
      holds none x c = λ y. c
      holds (some r) (x, y, z) c = (x, y, z, λ q. c)

  fits_of_IsAllowed :
      (u : Upstream R) (m : ℕ) (l : FleetSimulateLimitsReply) (n : SimulateNeeds)
      → is_some u.caps.simulate ≡ true
      → reply_of m (some u) ≡ some l
      → IsAllowed l n
      → fits n u.caps ≡ true
  unfolding fits reply_of
  fits_of_IsAllowed u m l n r e a =
      ground (arith, a.groups_le, a.rounds_le, a.budget_le, a.developer)

  body-eligible :
      (u : Upstream R) (m : ℕ) (l : FleetSimulateLimitsReply) (b : SimulateBody)
      → u.last_round < word
      → eligible u plain best tol ≡ true
      → is_some u.caps.simulate ≡ true
      → reply_of m (some u) ≡ some l
      → IsAllowed l (base_needs b)
      → IsHeld u (apply_simulate plain b)
      → eligible u (apply_simulate plain b) best tol ≡ true
  unfolding apply_simulate apply_span
  body-eligible u m l b small e k q a has_rounds =
      let sp = span_of empty_span b.rounds in
      elim (Bool-cases (b.round == 0)) [
        | inr z ↦ rw z (
            class-eligible u (some b.round) window_state true 0 (base_needs b) small e
              (fits_of_IsAllowed u m l (base_needs b) k q a) (rw z at has_rounds))
        | inl z ↦ elim (Bool-cases (ltb 0 sp.hi)) [
          | inl y ↦
              let n = record (base_needs b) { latest = sp.latest; rounds_span = true } in
              rw z (
                rw y (
                  class-eligible u (some sp.lo) window_state true sp.hi n small e
                    (fits_of_IsAllowed u m l n k q (allowed sp.latest true))
                    (rw (z, y) at has_rounds)))
          | inr y ↦
              let n = record (base_needs b) { latest = sp.latest } in
              rw z (
                rw y (
                  class-eligible u none window_block false 0 n small e
                    (fits_of_IsAllowed u m l n k q (allowed sp.latest (base_needs b).rounds_span))
                    tt))
        ]
      ]
    where
      allowed : (x y : Bool) → IsAllowed l (record (base_needs b) { latest = x; rounds_span = y })
      allowed x y = record {
        groups_le = a.groups_le;
        rounds_le = a.rounds_le;
        budget_le = a.budget_le;
        developer = a.developer;
      }

  from_reply :
      (us : List (Upstream R)) (m : ℕ) (o : Option (Upstream R)) (l : FleetSimulateLimitsReply)
      → All (λ u. u.last_round < word) us
      → IsReporting us o
      → reply_of m o ≡ some l
      → (u : Upstream R) × Among u us
        × (eligible u plain best tol ≡ true)
        × ((b : SimulateBody)
            → IsAllowed l (base_needs b)
            → IsHeld u (apply_simulate plain b)
            → eligible u (apply_simulate plain b) best tol ≡ true)
  unfolding reply_of
  from_reply us m none l small r e = cc
  from_reply us m (some u) l small r e =
      let in_word = Among-All (λ (u : Upstream R). u.last_round < word) u us small r.0 in
      (u, r.0, r.1, λ b a h. body-eligible u m l b in_word r.1 r.2 e a h)

  -- Of upstreams with last rounds within 64 bits, some eligible one takes every simulate request whose
  -- body asks for no more than the limits that the fleet answers with, and names only rounds that this
  -- upstream holds, if any.
  pub fleet_limits_kept :
      (us : List (Upstream R)) (l : FleetSimulateLimitsReply)
      → All (λ u. u.last_round < word) us
      → fleet_simulate_limits us best tol ≡ some l
      → (u : Upstream R) × Among u us
        × (eligible u plain best tol ≡ true)
        × ((b : SimulateBody)
            → IsAllowed l (base_needs b)
            → IsHeld u (apply_simulate plain b)
            → eligible u (apply_simulate plain b) best tol ≡ true)
  unfolding fleet_simulate_limits
  fleet_limits_kept us l small e =
      from_reply us _ _ l small
        (search-IsReporting (record { best = none; multiplier = 0 }) us us tt (λ x m. m)) e

  reply_of-multiplier :
      (m : ℕ) (o : Option (Upstream R)) (l : FleetSimulateLimitsReply)
      → reply_of m o ≡ some l
      → l.resource_limit_multiplier ≡ m
  unfolding reply_of
  reply_of-multiplier m none l e = cc
  reply_of-multiplier m (some u) l e = ground arith

  -- The multiplier of the answer is one that every eligible upstream grants.
  pub fleet_multiplier_granted :
      (us : List (Upstream R)) (l : FleetSimulateLimitsReply)
      → fleet_simulate_limits us best tol ≡ some l
      → All
          (λ u.
            eligible u plain best tol ≡ true
            → l.resource_limit_multiplier ≤ (simulate_limits u.caps).resource_limit_multiplier)
          us
  unfolding fleet_simulate_limits
  fleet_multiplier_granted us l e =
      rw (reply_of-multiplier _ _ l e)
        (search-multiplier (record { best = none; multiplier = 0 }) _ us refl).1
