-- ===== src/App/Handle.antt =====
-- What a request is let do, and which way it goes: `authorize`, `handleDefault` and the waits of
-- internal/app/router.go. The comparison of tokens, in constant time, is equality. What `Identify` of the
-- limiter says is an argument, and what the contexts and the monitor say. Logs and metrics are left.
pub mod Grants
pub mod Relaxed
use algod_loadb_mesh.Base.{
  ℕ, Bool, false, not, ◌&&◌, ◌||◌, Option, none, some, List, [], ◌∷◌, ltb, leb, ◌==◌, if◌then◌else◌,
  Bytes, codes, eqb, trim_suffix, cut, keep, any, ℤ, Float,
}
use algod_loadb_mesh.App.Forward.{budgeted}
use algod_loadb_mesh.App.Identity.{Identity, exempt_identity}
use algod_loadb_mesh.App.Router.{
  RouterOptions, Snapshot, Unroutable, no_upstream, sel, pick_upstream,
}
use algod_loadb_mesh.Domain.Eligible.{eligible, best_round, could_serve}
use algod_loadb_mesh.Domain.Request.{Reply, RequestClass, relaxed}
use algod_loadb_mesh.Domain.Select.{Selection}
use algod_loadb_mesh.Domain.Upstream.{is_local, is_external, Upstream}

-- The options of `RouterOptions` that `authorize` reads, and whether there is a limiter.
pub record AuthOptions : Type 0 where
  pub admin_token : Bytes
  pub client_token : Bytes
  pub has_limiter : Bool

pub data Access : Type 0 where
  billed : Identity → Access
  needs_admin_token : Access
  unauthorized : Access

abbrev health_path : Bytes
health_path = codes "/mesh/health"

-- `isHealth`.
unfoldable is_health : RequestClass → Bytes → Bool
is_health class path = class.agent && eqb (trim_suffix b'/' path) health_path

abbrev pub is_admin : AuthOptions → Bytes → Bool
is_admin o tok = not (eqb o.admin_token []) && eqb tok o.admin_token

abbrev pub or_unauthorized : Option Identity → Access
or_unauthorized none = unauthorized
or_unauthorized (some id) = billed id

-- The cases of `authorize`, in order: the admin or a health probe, an agent that is open, one without
-- an admin token, another request to the agent, a limiter, and the client token.
abbrev pub grant : Bool → Bool → Bool → Bool → Bool → Bool → Option Identity → Access
grant exempt opened tokenless agent limited_by client known =
    if exempt
    then billed exempt_identity
    else if opened
    then billed exempt_identity
    else if tokenless
    then needs_admin_token
    else if agent
    then unauthorized
    else if limited_by
    then or_unauthorized known
    else if client
    then billed exempt_identity
    else unauthorized

abbrev pub is_open : AuthOptions → RequestClass → Bool
is_open o class = class.agent && eqb o.admin_token [] && eqb o.client_token [] && not o.has_limiter

-- `authorize`, of a request of the class, whose token is `tok`; `health` is `isHealth`.
unfoldable pub authorize : AuthOptions → RequestClass → Bool → Bytes → Option Identity → Access
authorize o class health tok known =
    grant (is_admin o tok || health) (is_open o class) (class.agent && eqb o.admin_token [])
      class.agent o.has_limiter (eqb o.client_token [] || eqb tok o.client_token) known

-- What `handleDefault` does with a request.
pub data Course (R : Type 0) : Type 0 where
  send_to : Selection R → RequestClass → Course R
  cut_short : Course R
  not_there_yet : Reply → Course R
  unroutable : Unroutable → Course R

-- How a wait-for-block-after is served: `handleWait` and the start of `handlePeerWait`.
pub data Wait : Type 0 where
  on_balancer on_local_node held forwarded_now : Wait

abbrev pub is_ahead : ℕ → Option ℕ → Bool
is_ahead top none = false
is_ahead top (some r) = ltb 0 top && ltb top r

module _ {R : Type 0} ⦃f : Float R⦄ (o : RouterOptions R) where
  -- The loop of `handleDefault` over the relaxed classes: `prev` is the class before. A selection
  -- has draws of its own.
  abbrev pub or_next :
      RequestClass
      → Option (Selection R)
      → Option (Selection R × RequestClass)
      → Option (Selection R × RequestClass)
  or_next rc none rest = rest
  or_next rc (some s) rest = some (s, rc)

  unfoldable pub relax_from :
      List (Upstream R)
      → ℕ
      → (RequestClass → Option (ℕ → ℕ → ℕ))
      → RequestClass
      → List RequestClass
      → Option (Selection R × RequestClass)
  relax_from cands best draws prev [] = none
  relax_from cands best draws prev (rc ∷ rcs) =
      let rest = relax_from cands best draws rc rcs in
      if could_serve cands prev then none else or_next rc (sel o cands rc best (draws rc)) rest

  abbrev pub no_course : RequestClass → List (Upstream R) → Bool → Course R
  no_course class cands cut =
      if cut
      then cut_short
      else if not (class.ahead.status == 0) && is_ahead (best_round cands) class.round
      then not_there_yet class.ahead
      else unroutable (no_upstream o class cands)

  abbrev pub relaxed_course :
      RequestClass → List (Upstream R) → Bool → Option (Selection R × RequestClass) → Course R
  relaxed_course class cands cut none = no_course class cands cut
  relaxed_course class cands cut (some (s, rc)) = send_to s rc

  abbrev pub picked_course :
      RequestClass
      → (RequestClass → Option (ℕ → ℕ → ℕ))
      → Bool
      → Option (Selection R) × Snapshot R
      → Course R
  picked_course class draws cut (some s, t) = send_to s class
  picked_course class draws cut (none, t) =
      relaxed_course class t.cands cut (relax_from t.cands t.best draws class (relaxed class))

  -- `handleDefault`; `cut` is whether the limiter has cancelled the request meanwhile.
  unfoldable handle_default :
      RequestClass
      → Snapshot R
      → Option (Snapshot R)
      → Option (ℕ → ℕ → ℕ)
      → Option (ℕ → ℕ → ℕ)
      → (RequestClass → Option (ℕ → ℕ → ℕ))
      → Bool
      → Course R
  handle_default class s checked rnd later draws cut =
      picked_course class draws cut (pick_upstream o class s checked rnd later)

  -- `worthWaiting`.
  unfoldable pub worth_waiting : List (Upstream R) → RequestClass → ℕ → Bool
  worth_waiting cands class best =
      any
        (λ u.
          not (is_external u.kind)
          && eligible u (record class { wait_after = none }) best o.sync_tolerance)
        cands

  abbrev pub serves_wait : RequestClass → ℕ → List (Upstream R) → Bool
  serves_wait class best [] = false
  serves_wait class best (u ∷ us) = is_local u.kind && eligible u class best o.sync_tolerance

  unfoldable handle_wait : RequestClass → Snapshot R → Wait
  handle_wait class s =
      if o.balancer
      then on_balancer
      else if serves_wait class s.best s.cands
      then on_local_node
      else if worth_waiting s.cands class s.best
      then held
      else forwarded_now

  -- The upstreams that a released wait may go to, in `handlePeerWait`.
  abbrev pub past_round : ℕ → List (Upstream R) → List (Upstream R)
  past_round after = keep (λ u. not (is_external u.kind) && ltb after u.last_round)

  unfoldable pub released_wait :
      RequestClass → ℕ → Snapshot R → Option (ℕ → ℕ → ℕ) → Option (Selection R)
  released_wait class after s rnd = sel o (past_round after s.cands) class s.best rnd

  -- The nodes that `fetchStatus` asks, for a status at a round or later.
  abbrev pub at_round_or_later : ℕ → List (Upstream R) → List (Upstream R)
  at_round_or_later want = keep (λ u. not (is_external u.kind) && leb want u.last_round)

  abbrev pub asked : ℤ → Option (Selection R) → List (Upstream R)
  asked budget none = []
  asked budget (some s) = budgeted budget (s.chosen ∷ s.alternates)

  unfoldable status_targets :
      ℤ → RequestClass → ℕ → Snapshot R → Option (ℕ → ℕ → ℕ) → List (Upstream R)
  status_targets budget class want s rnd =
      asked budget (sel o (at_round_or_later want s.cands) class s.best rnd)
