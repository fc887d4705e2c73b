-- ===== src/App/Directory/Checks.antt =====
-- What the directory asks on its own: `probeSilentPeers`, `checkPaths`, `checkExternals` and the
-- functions they call, of internal/app/directory.go. The calls over the network are steps of their
-- own, with the answer as an argument, so that other steps may come between.
use algod_loadb_mesh.Base.{
  ℕ, Bool, true, false, not, ◌&&◌, ◌||◌, Option, none, some, List, [], ◌∷◌, map, ◌==◌,
  if◌then◌else◌, is_some, Time, is_zero, sub_time, second, Bytes, eqb, pos, ltb_ℤ, leb_ℤ, lookup,
}
use algod_loadb_mesh.App.Directory.{Peer, External, Directory}
use algod_loadb_mesh.App.Directory.Gossip.{with_link, set_peer, peer_links}
use algod_loadb_mesh.App.Link.{PathState, Link, cur_addr}
use algod_loadb_mesh.App.Link.Ping.{choose_link, Job, ping_paths, Sent, sent_path, forget_ping}
use algod_loadb_mesh.App.Options.{DirectoryOptions, is_excluded}
use algod_loadb_mesh.Domain.Endpoint.{Net, endpoint_for}
use algod_loadb_mesh.Domain.NodeRecord.{is_nil}

-- `silent` of `probeSilentPeers`.
abbrev pub is_silent : DirectoryOptions → Time → Peer → Bool
is_silent o now p = not (is_some p.hb) || ltb_ℤ (pos o.suspect_after) (sub_time now p.seen_at)

-- Every path is pinged at the next tick, but for those whose ping is out.
abbrev pub ping_soon : PathState → PathState
ping_soon p = if p.nonce == 0 then record p { pinged_at = 0 } else p

abbrev pub fall_silent : Peer → Peer
fall_silent p = record p { silent = true; ln = record p.ln { paths = map ping_soon p.ln.paths } }

abbrev pub probe_due : DirectoryOptions → Time → Bytes → Peer → Bool
probe_due o now id p =
    is_silent o now p
    && not (is_excluded o id)
    && leb_ℤ (pos o.probe_interval) (sub_time now p.probe_at)
    && not (is_nil p.rec.endpoints)

-- A status call to make of a peer's algod.
pub record StatusJob : Type 0 where
  pub id : Bytes
  pub url : Bytes
  pub token : Bytes

-- The loop of `probeSilentPeers`.
unfoldable probe_silent :
    Net → DirectoryOptions → Time → List (Bytes × Peer) → List (Bytes × Peer) × List StatusJob
probe_silent n o now [] = ([], [])
probe_silent n o now ((id, p) ∷ ps) =
    let q = if is_silent o now p && not p.silent then fall_silent p else p in
    let job : StatusJob = record {
      id = id;
      url = endpoint_for n q.rec.endpoints q.hosts (cur_addr q.ln);
      token = q.rec.token;
    } in
    let (qs, jobs) = probe_silent n o now ps in
    if probe_due o now id q
    then ((id, record q { probe_at = now }) ∷ qs, job ∷ jobs)
    else ((id, q) ∷ qs, jobs)

abbrev probe_result : Option ℕ → Peer → Peer
probe_result none p = record p { probe_ok = false }
probe_result (some r) p = record p { probe_ok = true; probe_round = r }

abbrev probed_peer : Bytes → Option ℕ → Directory → Option Peer → Directory
probed_peer id answer d none = d
probed_peer id answer d (some p) = set_peer id (probe_result answer p) d

-- The end of a direct probe; none is an error.
unfoldable probe_done : Bytes → Option ℕ → Directory → Directory
probe_done id answer d = probed_peer id answer d (lookup id d.peers)

-- The loops of `checkPaths` over the links, with the pings of each link.
unfoldable pub ping_links :
    DirectoryOptions → Time → ℕ → List (Bytes × Link) → ℕ × (List (Bytes × Link) × List (List Job))
ping_links o now nonce [] = (nonce, ([], []))
ping_links o now nonce ((id, l) ∷ ls) =
    let (k, (paths, jobs)) = ping_paths o l now nonce l.paths in
    let (last, (rest, more)) = ping_links o now k ls in
    (last, ((id, record l { paths = paths }) ∷ rest, jobs ∷ more))

-- The peers with their links written back.
unfoldable pub with_links : List (Bytes × Link) → List (Bytes × Peer) → List (Bytes × Peer)
with_links [] ps = ps
with_links (l ∷ ls) [] = []
with_links ((i, l) ∷ ls) ((id, p) ∷ ps) = (id, with_link l p) ∷ with_links ls ps

-- `checkPaths` up to the sends: the pings of the peers' links and those of the balancers' links.
unfoldable send_pings :
    DirectoryOptions → Time → Directory → Directory × (List (List Job) × List (List Job))
send_pings o now d =
    let (k, (peer_ls, peer_jobs)) = ping_links o now d.nonce (peer_links d.peers) in
    let (last, (bal_ls, bal_jobs)) = ping_links o now k d.balancers in
    (
      record d { nonce = last; peers = with_links peer_ls d.peers; balancers = bal_ls },
      (peer_jobs, bal_jobs),
    )

-- What the sends prove of the paths of a link, and the pings that never left.
unfoldable settle_jobs : (Bytes → Sent) → List Job → List PathState → List PathState
settle_jobs answer [] ps = ps
settle_jobs answer (j ∷ js) ps =
    settle_jobs answer js
      (map (λ p. forget_ping j (answer j.addr) (sent_path j.addr (answer j.addr) p)) ps)

-- The rest of `checkPaths`, on the links that were pinged: the links, and whether a path changed.
unfoldable settle_links :
    DirectoryOptions
    → Time
    → (Bytes → Sent)
    → List (Bytes × Link)
    → List (List Job)
    → List (Bytes × Link) × Bool
settle_links o now answer [] jobs = ([], false)
settle_links o now answer (l ∷ ls) [] = (l ∷ ls, false)
settle_links o now answer ((id, l) ∷ ls) (js ∷ jss) =
    let (l', switched) = choose_link o now (record l { paths = settle_jobs answer js l.paths }) in
    let (rest, more) = settle_links o now answer ls jss in ((id, l') ∷ rest, switched || more)

-- `externalDebounce`.
abbrev pub external_debounce : ℕ
external_debounce = second

-- `(*extState).fresh`.
unfoldable pub is_fresh : Time → External → Bool
is_fresh now e = e.ok && leb_ℤ (sub_time now e.checked_at) (pos e.cfg.health_check)

abbrev pub is_check_due : Time → External → Bool
is_check_due now e =
    is_zero e.checked_at
    || leb_ℤ (pos external_debounce) (sub_time now e.checked_at)
    || (e.ok && not (is_fresh now e))

abbrev pub starts_check : DirectoryOptions → Time → Bytes → External → Bool
starts_check o now id e = not (is_excluded o id) && not e.in_flight && is_check_due now e

-- The first loop of `checkExternals`: the externals, and the names of those whose check starts.
unfoldable pub start_checks :
    DirectoryOptions → Time → List (Bytes × External) → List (Bytes × External) × List Bytes
start_checks o now [] = ([], [])
start_checks o now ((id, e) ∷ es) =
    let (rest, names) = start_checks o now es in
    if starts_check o now id e
    then ((id, record e { in_flight = true }) ∷ rest, id ∷ names)
    else ((id, e) ∷ rest, names)

-- `externalsLocked`, without its channel.
unfoldable pub externals_state : DirectoryOptions → Time → List (Bytes × External) → Bool × Bool
externals_state o now [] = (false, false)
externals_state o now ((id, e) ∷ es) =
    let (fresh, inflight) = externals_state o now es in
    if is_excluded o id
    then (fresh, inflight)
    else (is_fresh now e || fresh, e.in_flight || inflight)

abbrev pub check_result : Time → Option ℕ → External → External
check_result now none e = record e { in_flight = false; checked_at = now; ok = false }
check_result now (some r) e = record e { in_flight = false; checked_at = now; ok = true; round = r }

-- The end of `checkExternal`; none is an error.
unfoldable pub check_done :
    Bytes → Time → Option ℕ → List (Bytes × External) → List (Bytes × External)
check_done name now answer [] = []
check_done name now answer ((id, e) ∷ es) =
    let rest = check_done name now answer es in
    (id, if eqb id name then check_result now answer e else e) ∷ rest
