-- ===== src/App/Monitor/Oldest.antt =====
-- The oldest round that the local node serves: `ProbeOldestRound`, `checkEdge` and `verifyOldest` of
-- internal/app/monitor.go. `HasBlock` is a function of the round, none on an error. The search runs on
-- fuel; it halves the distance, which is below 2 ^ 64, so 64 steps are enough.
pub mod Least
use algod_loadb_mesh.Base.{
  ℕ, zero, suc, ◌+◌, ◌-◌, ◌/◌, Bool, true, false, not, ◌&&◌, ◌||◌, Option, none, some, ltb, ◌==◌,
  if◌then◌else◌, is_some, eqb,
}
use algod_loadb_mesh.App.Monitor.{LocalState, numbered}
use algod_loadb_mesh.Domain.Capabilities.{
  archival_full, archival_trailing, archival_since, Archival, oldest_round_for, CapabilityOverrides,
}
use algod_loadb_mesh.Domain.Plan.{full}

pub data Searched : Type 0 where
  oldest : ℕ → Searched
  request_failed : Searched
  no_own_round : Searched
  out_of_fuel : Searched

-- The archival mode that a measured round leaves.
abbrev pub measured_archival : ℕ → LocalState → Archival
measured_archival m s =
    let a = s.caps.archival in
    if eqb a.kind archival_full
    then record { kind = archival_since; n = m }
    else if eqb a.kind archival_trailing && ltb m s.last_round
    then record a { n = s.last_round - m }
    else a

abbrev pub measured_oldest : ℕ → LocalState → ℕ
measured_oldest m s =
    let r = oldest_round_for (measured_archival m s) s.last_round in if ltb r m then m else r

-- The last update of `verifyOldest`.
unfoldable pub note_measured : ℕ → LocalState → LocalState
note_measured m s =
    if ltb s.caps.oldest_round m
    then numbered (record s {
      verified = true;
      caps = record s.caps { archival = measured_archival m s; oldest_round = measured_oldest m s };
    })
    else numbered (record s { verified = true })

abbrev pub note_searched : Searched → LocalState → LocalState
note_searched (oldest m) s = note_measured m s
note_searched request_failed s = s
note_searched no_own_round s = s
note_searched out_of_fuel s = s

abbrev pub sets_archival : Option CapabilityOverrides → Bool
sets_archival none = false
sets_archival (some o) = is_some o.archival

module _ (has_block : ℕ → Option Bool) where
  -- The loop: the node does not serve `lo`, and serves `hi`.
  unfoldable pub bisect : ℕ → ℕ → ℕ → Searched
  bisect zero lo hi = if ltb 1 (hi - lo) then out_of_fuel else oldest hi
  bisect (suc fuel) lo hi =
      let mid = lo + (hi - lo) / 2 in
      let low = bisect fuel lo mid in
      let high = bisect fuel mid hi in
      if not (ltb 1 (hi - lo))
      then oldest hi
      else elim (has_block mid) [ none ↦ request_failed | some b ↦ if b then low else high ]

  abbrev pub search_below : ℕ → Option Bool → Searched
  search_below last none = request_failed
  search_below last (some b) = if b then bisect 64 0 last else no_own_round

  abbrev pub search_from : ℕ → Option Bool → Searched
  search_from last none = request_failed
  search_from last (some b) = if b then oldest 0 else search_below last (has_block last)

  -- `ProbeOldestRound`; `searchOldest` is the same on the monitor's node.
  unfoldable pub probe_oldest : ℕ → Searched
  probe_oldest last = search_from last (has_block 0)

  abbrev pub edge_below : ℕ → ℕ → Option Bool → Searched
  edge_below expected last none = request_failed
  edge_below expected last (some b) = if b then probe_oldest last else oldest expected

  abbrev pub edge_at : ℕ → ℕ → Option Bool → Searched
  edge_at expected last none = request_failed
  edge_at expected last (some b) =
      if not b
      then probe_oldest last
      else if expected == 0
      then oldest 0
      else edge_below expected last (has_block (expected - 1))

  -- `checkEdge`.
  unfoldable pub check_edge : ℕ → ℕ → Searched
  check_edge expected last = edge_at expected last (has_block expected)

  -- `verifyOldest`: `st` is the state that it reads first, `s` the one that it updates in the end.
  unfoldable pub verify_oldest :
      Option CapabilityOverrides → Bool → LocalState → LocalState → LocalState
  verify_oldest ov full st s =
      if not st.online || (st.last_round == 0)
      then s
      else if sets_archival ov
      then numbered (record s { verified = true })
      else if full || not st.verified
      then note_searched (probe_oldest st.last_round) s
      else note_searched (check_edge st.caps.oldest_round st.last_round) s
