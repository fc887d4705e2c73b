-- ===== src/Domain/Eligible.antt =====
-- Which upstreams may serve a request: internal/domain/eligible.go. Sums of rounds are on uint64
-- and wrap. The simulate limits of the fleet are in Fleet.
pub mod Spec
pub mod Laws
pub mod Whole
pub mod Simulate
use algod_loadb_mesh.Base.{
  ℕ, ◌-◌, Bool, true, false, not, ◌&&◌, ◌||◌, Option, none, some, List, [], ◌∷◌, ltb, leb, ◌==◌,
  if◌then◌else◌, any, Float, add_word,
}
use algod_loadb_mesh.Domain.Capabilities.{Capabilities}
use algod_loadb_mesh.Domain.Request.{
  RoundWindow, is_block, is_delta, SimulateNeeds, RequestClass, heavy, fits,
}
use algod_loadb_mesh.Domain.Upstream.{
  Health, starting, offline, online, lagging, synced, reachable, is_local, Stats, Upstream,
}

-- `synced`: whether `round` is within the tolerance of the best round.
unfoldable within_tolerance : ℕ → ℕ → ℕ → Bool
within_tolerance round best tol = leb best (add_word round tol)

judged_sync : Health → ℕ → ℕ → ℕ → Bool
judged_sync synced round best tol = true
judged_sync lagging round best tol = false
judged_sync starting round best tol = within_tolerance round best tol
judged_sync offline round best tol = within_tolerance round best tol
judged_sync online round best tol = within_tolerance round best tol

abbrev covers_from : Option ℕ → ℕ → ℕ → Bool
covers_from none oldest_round r = leb oldest_round r
covers_from (some oldest) oldest_round r = leb oldest r

abbrev pub wants_latest : Option SimulateNeeds → Bool
wants_latest none = false
wants_latest (some n) = n.latest

-- `c.WaitAfter != nil && *c.WaitAfter > u.LastRound+1`.
abbrev pub waits_beyond : Option ℕ → ℕ → Bool
waits_beyond none last_round = false
waits_beyond (some r) last_round = ltb (add_word last_round 1) r

abbrev pub needs_fit : Option SimulateNeeds → Capabilities → Bool
needs_fit none caps = true
needs_fit (some n) caps = fits n caps

module _ {R : Type 0} where
  unfoldable pub in_sync : Upstream R → ℕ → ℕ → Bool
  unfolding judged_sync within_tolerance
  in_sync u best tol = judged_sync u.health u.last_round best tol

  -- The oldest round of a state window; none when the lookback is unknown.
  unfoldable pub state_oldest : Upstream R → RoundWindow → Option ℕ
  state_oldest u w =
      let lb = u.caps.max_acct_lookback in
      let base = if ltb lb u.last_round then u.last_round - lb else 0 in
      if lb == 0 then none else some (if is_delta w then add_word base 1 else base)

  unfoldable pub state_window_covers : Upstream R → ℕ → RoundWindow → Bool
  unfolding state_oldest
  state_window_covers u r w = covers_from (state_oldest u w) u.caps.oldest_round r

  -- The `switch` on the window of a request for round `r`.
  unfoldable pub window_covers : Upstream R → RequestClass → ℕ → Bool
  window_covers u c r =
      if u.caps.time_travel && c.history_any_round
      then true
      else if u.caps.time_travel
      then leb u.caps.oldest_round r
      else if not (is_block c.round_window)
      then state_window_covers u r c.round_window
      else leb u.caps.oldest_round r

  -- The `if c.Round != nil … else if …` of `Eligible`: false where it returns false.
  unfoldable pub round_eligible : Upstream R → RequestClass → ℕ → ℕ → Option ℕ → Bool
  unfolding window_covers
  round_eligible u c best tol (some r) =
      if ltb u.last_round r || ltb u.last_round c.round_high
      then false
      else if not (window_covers u c r)
      then false
      else not (wants_latest c.sim_needs && not (in_sync u best tol))
  round_eligible u c best tol none = not (not c.local_only && not (in_sync u best tol))

  unfoldable pub eligible : Upstream R → RequestClass → ℕ → ℕ → Bool
  eligible u c best tol =
      if u.excluded || not (reachable u.health) || u.draining
      then false
      else if u.stats.breaker_open || u.stats.throttled || (u.stats.busy && heavy c)
      then false
      else if c.local_only && not (is_local u.kind)
      then false
      else if c.time_travel && not u.caps.time_travel
      then false
      else if not (round_eligible u c best tol c.round)
      then false
      else if waits_beyond c.wait_after u.last_round
      then false
      else if c.needs_dev && not u.caps.developer_api
      then false
      else if not (needs_fit c.sim_needs u.caps)
      then false
      else not (c.broadcast && u.caps.follow_mode)

  -- `BestRound`: its loop over the upstreams.
  unfoldable pub best_from : ℕ → List (Upstream R) → ℕ
  best_from best [] = best
  best_from best (u ∷ us) =
      best_from
        (if reachable u.health && not u.excluded && ltb best u.last_round
          then u.last_round
          else best)
        us

  unfoldable pub best_round : List (Upstream R) → ℕ
  unfolding best_from
  best_round = best_from 0

  module _ ⦃f : Float R⦄ where
    abbrev pub empty_stats : Stats R
    empty_stats = record {
      latency_ms = [];
      error_rate = f.of_nat 0;
      inflight = 0;
      breaker_open = false;
      throttled = false;
      busy = false;
    }

    -- An upstream as it would be in its best state.
    abbrev pub recovered : Upstream R → Upstream R
    recovered u = record u { health = synced; draining = false; stats = empty_stats }

    unfoldable pub could_serve : List (Upstream R) → RequestClass → Bool
    could_serve us c = any (λ u. eligible (recovered u) c u.last_round 0) us

-- `SyncHealth`.
unfoldable pub sync_health : Health → ℕ → ℕ → ℕ → Health
unfolding within_tolerance reachable
sync_health h round best tol =
    if not (reachable h) then h else if within_tolerance round best tol then synced else lagging
