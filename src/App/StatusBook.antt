-- ===== src/App/StatusBook.antt =====
-- The status that the waiters of a balancer share: `statusAt` and the end of `fetchStatus` of
-- internal/app/router.go.
use algod_loadb_mesh.Base.{
  ℕ, Bool, true, ◌&&◌, Option, none, some, ltb, leb, ◌==◌, if◌then◌else◌, is_some, Bytes,
}

-- `statusFetch`, once it is done: the round and the body of a status, none on an error.
pub record StatusFetch : Type 0 where
  pub want : ℕ
  pub round : ℕ
  pub body : Option Bytes

-- The state of the coalesced waits: the last completed fetch, and the round of the one in flight.
pub record StatusBook : Type 0 where
  pub last : Option StatusFetch
  pub fetching : Option ℕ

-- What a caller of `statusAt` gets: a body at once, or a place in a fetch, which may be a new one.
pub data StatusCall : Type 0 where
  at_once : StatusFetch → StatusCall
  joins : ℕ → StatusCall
  starts : ℕ → StatusCall

abbrev pub join_or_start : StatusBook → ℕ → Option ℕ → StatusBook × StatusCall
join_or_start b round none = (record b { fetching = some round }, starts round)
join_or_start b round (some want) =
    if ltb want round then (record b { fetching = some round }, starts round) else (b, joins want)

abbrev pub recent_or : StatusBook → ℕ → Option StatusFetch → StatusBook × StatusCall
recent_or b round none = join_or_start b round b.fetching
recent_or b round (some last) =
    if leb round last.round then (b, at_once last) else join_or_start b round b.fetching

unfoldable pub status_at : StatusBook → ℕ → StatusBook × StatusCall
status_at b round = recent_or b round b.last

abbrev is_newer : StatusFetch → Option StatusFetch → Bool
is_newer fetch none = true
is_newer fetch (some last) = ltb last.round fetch.round

abbrev ends_flight : ℕ → Option ℕ → Option ℕ
ends_flight want none = none
ends_flight want (some w) = if w == want then none else some w

-- The end of `fetchStatus`. A newer fetch in flight is for a later round.
unfoldable status_done : StatusBook → StatusFetch → StatusBook
status_done b fetch = record {
  last = if is_some fetch.body && is_newer fetch b.last then some fetch else b.last;
  fetching = ends_flight fetch.want b.fetching;
}
