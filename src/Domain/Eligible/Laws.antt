-- ===== src/Domain/Eligible/Laws.antt =====
-- `eligible` decides the rules of its documentation.
use algod_loadb_mesh.Base.{
  ℕ, ◌≤◌, ◌<◌, ◌≡◌, refl, ◌↔◌, inl, inr, true, false, Option, none, some, arith, leb, leb→le,
  Bool-cases, le→leb, word, add_word,
}
use algod_loadb_mesh.Domain.Capabilities.{Capabilities}
use algod_loadb_mesh.Domain.Eligible.{
  wants_latest, waits_beyond, needs_fit, in_sync, state_window_covers, window_covers,
  round_eligible, eligible,
}
use algod_loadb_mesh.Domain.Eligible.Spec.{
  OnSome, CanRun, Latest, IsCurrent, first_round, HoldsRound, Serves,
}
use algod_loadb_mesh.Domain.Request.{SimulateNeeds, RequestClass, heavy, fits}
use algod_loadb_mesh.Domain.Upstream.{reachable, Upstream}

pub CanRun-of_fits : (n : SimulateNeeds) (c : Capabilities) → fits n c ≡ true → CanRun c n
unfolding fits
CanRun-of_fits n c h = ground arith

fits_of_CanRun : (n : SimulateNeeds) (c : Capabilities) → CanRun c n → fits n c ≡ true
unfolding fits
fits_of_CanRun n c h = elim (Bool-cases n.fork) [
  | inl e ↦ let (l, p) = h.forked e in ground arith
  | inr e ↦ ground arith
]

module _ {R : Type 0} (u : Upstream R) (c : RequestClass) (best tol : ℕ) where
  IsCurrent-of_in_sync :
      reachable u.health ≡ true → in_sync u best tol ≡ true → IsCurrent u best tol
  unfolding in_sync reachable
  IsCurrent-of_in_sync up h = ground arith

  in_sync_of_IsCurrent : IsCurrent u best tol → in_sync u best tol ≡ true
  unfolding in_sync
  in_sync_of_IsCurrent h = ground arith

  window_covers-first_round :
      (r : ℕ) → u.last_round < word → window_covers u c r ≡ leb (first_round u c) r
  unfolding window_covers state_window_covers
  window_covers-first_round r h = ground arith

  unless_wanted :
      reachable u.health ≡ true
      → (o : Option SimulateNeeds) → (wants_latest o ≡ true → in_sync u best tol ≡ true)
      → OnSome (λ n. Latest n → IsCurrent u best tol) o
  unless_wanted up none h = tt
  unless_wanted up (some n) h = λ l. IsCurrent-of_in_sync up (h l)

  wanted_unless :
      (o : Option SimulateNeeds)
      → OnSome (λ n. Latest n → IsCurrent u best tol) o
      → wants_latest o ≡ true
      → in_sync u best tol ≡ true
  wanted_unless none h e = cc
  wanted_unless (some n) h e = in_sync_of_IsCurrent (h e)

  HoldsRound-of_eligible :
      u.last_round < word
      → reachable u.health ≡ true
      → (o : Option ℕ) → round_eligible u c best tol o ≡ true
      → HoldsRound u c best tol o
  unfolding round_eligible
  HoldsRound-of_eligible small up none h = λ away. IsCurrent-of_in_sync up (ground arith)
  HoldsRound-of_eligible small up (some r) h =
      let w = window_covers-first_round r small in
      let covered : leb (first_round u c) r ≡ true = ground arith in
      (
        leb→le _ _ covered,
        ground arith,
        ground arith,
        unless_wanted up c.sim_needs (λ l. ground arith),
      )

  round_eligible_of_HoldsRound :
      u.last_round < word
      → (o : Option ℕ) → HoldsRound u c best tol o
      → round_eligible u c best tol o ≡ true
  unfolding round_eligible
  round_eligible_of_HoldsRound small none h = elim (Bool-cases c.local_only) [
    | inl e ↦ ground arith
    | inr e ↦ let s = in_sync_of_IsCurrent (h e) in ground arith
  ]
  round_eligible_of_HoldsRound small (some r) h =
      let w = window_covers-first_round r small in
      let covered : leb (first_round u c) r ≡ true = le→leb _ _ h.0 in
      let l = wanted_unless c.sim_needs h.3 in
      elim (Bool-cases (wants_latest c.sim_needs)) [
        | inl e ↦ let s = l e in ground arith
        | inr e ↦ ground arith
      ]

  near_of :
      (o : Option ℕ)
      → waits_beyond o u.last_round ≡ false
      → OnSome (λ r. r ≤ add_word u.last_round 1) o
  near_of none h = tt
  near_of (some r) h = ground arith

  of_near :
      (o : Option ℕ)
      → OnSome (λ r. r ≤ add_word u.last_round 1) o
      → waits_beyond o u.last_round ≡ false
  of_near none h = refl
  of_near (some r) h = ground arith

  room_of : (o : Option SimulateNeeds) → needs_fit o u.caps ≡ true → OnSome (CanRun u.caps) o
  room_of none h = tt
  room_of (some n) h = CanRun-of_fits n u.caps h

  of_room : (o : Option SimulateNeeds) → OnSome (CanRun u.caps) o → needs_fit o u.caps ≡ true
  of_room none h = refl
  of_room (some n) h = fits_of_CanRun n u.caps h

  -- `Eligible` accepts exactly the upstreams that meet every rule of its documentation, for a last
  -- round within 64 bits.
  pub eligible_iff : u.last_round < word → (eligible u c best tol ≡ true) ↔ Serves u c best tol
  unfolding eligible heavy
  eligible_iff small = (sound, complete)
    where
      sound : eligible u c best tol ≡ true → Serves u c best tol
      sound h = record {
        included = ground arith;
        up = ground arith;
        staying = ground arith;
        closed = ground arith;
        unthrottled = ground arith;
        free = λ x. ground arith;
        at_home = λ x. ground arith;
        history = λ x. ground arith;
        rounds = HoldsRound-of_eligible small (ground arith) c.round (ground arith);
        near = near_of c.wait_after (ground arith);
        developer = λ x. ground arith;
        room = room_of c.sim_needs (ground arith);
        participates = λ x. ground arith;
      }

      complete : Serves u c best tol → eligible u c best tol ≡ true
      complete s =
          let r = round_eligible_of_HoldsRound small c.round s.rounds in
          let n = of_near c.wait_after s.near in
          let m = of_room c.sim_needs s.room in
          ground (
            arith, s.included, s.up, s.staying, s.closed, s.unthrottled, s.free, s.at_home,
            s.history, s.developer, s.participates,
          )
