-- ===== src/App/Link/Ping.antt =====
-- Pings and pongs of a link: `handleProbeLocked`, and what `checkPaths` and `send` do to one path,
-- of internal/app/directory.go. The options of the directory are durations of at least 0. A map of
-- metrics and the log are left. The clock does not go back between a ping and its pong.
pub mod Nonces
use algod_loadb_mesh.Base.{
  ℕ, ◌+◌, ◌-◌, ◌*◌, ◌%◌, Bool, true, false, not, ◌&&◌, ◌||◌, Option, none, some, List, [], ◌∷◌, map,
  ltb, leb, ◌==◌, if◌then◌else◌, Time, Duration, is_zero, max_duration, sub_time, Bytes, eqb, set,
  any, ℤ, pos, negsuc, pos_part, ltb_ℤ, leb_ℤ, Float, word, add_word,
}
use algod_loadb_mesh.App.Link.{PathState, Link, cur_path, choose_path, heard_ms}
use algod_loadb_mesh.App.Options.{DirectoryOptions, policy_of}
use algod_loadb_mesh.Domain.Codec.{Probe, probe_ping, probe_pong}
use algod_loadb_mesh.Domain.Path.{path_failures}

abbrev pub choose_link : DirectoryOptions → Time → Link → Link × Bool
choose_link o now l = choose_path o.no_local (policy_of o) now l

-- `time.Duration(ms) * time.Millisecond` for ms of at least 0, in int64.
abbrev pub of_milliseconds : ℕ → Duration
of_milliseconds ms =
    let w = (ms * 1000000) % word in if leb w max_duration then pos w else negsuc (word - w - 1)

abbrev pub answers : ℕ → PathState → Bool
answers nonce p = not (p.nonce == 0) && (p.nonce == nonce)

module _ {R : Type 0} (f : Float R) where
  -- `rtt` after a sample: the first one, or a moving average.
  abbrev pub smooth_rtt : ℕ → ℕ → ℕ
  smooth_rtt rtt sample =
      if rtt == 0
      then sample
      else pos_part (
          f.to_duration (
            f.add (f.mul (f.div (f.of_nat 4) (f.of_nat 5)) (f.of_nat rtt))
              (f.mul (f.div (f.of_nat 1) (f.of_nat 5)) (f.of_nat sample))))

  -- A pong clears the ping that it answers, and every doubt about the path.
  abbrev pub pong_path : ℕ → Time → PathState → PathState
  pong_path nonce now p =
      if answers nonce p
      then record p {
        rtt = smooth_rtt p.rtt (pos_part (sub_time now p.pinged_at));
        nonce = 0;
        ponged_at = now;
        fails = 0;
        deaf = false;
        no_route = false;
      }
      else p

  -- Whether the peer says that it has not heard this node on the current path for three keepalives,
  -- on which this node has been sending for longer than that.
  abbrev pub unheard : DirectoryOptions → Link → ℤ → Time → PathState → Bool
  unheard o l heard now c =
      let stale = pos (3 * o.keep_alive) in
      leb_ℤ (pos 0) heard
      && ltb_ℤ stale (of_milliseconds (pos_part heard))
      && ltb_ℤ stale (sub_time now l.switched_at)
      && not c.deaf

  abbrev pub deafen_at : List PathState → Option ℕ → PathState → List PathState
  deafen_at paths none c = paths
  deafen_at paths (some i) c = set paths i (record c { deaf = true })

  abbrev pub mark_deaf : DirectoryOptions → Link → ℤ → Time → Option PathState → Link
  mark_deaf o l heard now none = l
  mark_deaf o l heard now (some c) =
      if unheard o l heard now c then record l { paths = deafen_at l.paths l.cur c } else l

  -- The end of `handleProbeLocked`: the deaf test on the current path, and the policy.
  abbrev pub settle_probe :
      DirectoryOptions → Link → Probe → Time → Option Probe → Link × (Option Probe × Bool)
  settle_probe o l pr now reply =
      let (l', switched) = choose_link o now (mark_deaf o l pr.heard_ms now (cur_path l)) in
      (l', (reply, switched))

  abbrev pub pong_to : DirectoryOptions → Link → Probe → Time → Probe
  pong_to o l pr now = record {
    kind = probe_pong;
    node_id = o.local_id;
    nonce = pr.nonce;
    heard_ms = heard_ms l now;
  }

  -- `handleProbeLocked`: the link, the pong to send back and whether the chosen path changed.
  unfoldable pub handle_probe :
      DirectoryOptions → Link → Probe → Time → Link × (Option Probe × Bool)
  handle_probe o l pr now =
      if eqb pr.kind probe_ping
      then settle_probe o l pr now (some (pong_to o l pr now))
      else if not (eqb pr.kind probe_pong)
      then settle_probe o l pr now none
      else if not (any (answers pr.nonce) l.paths)
      then (l, (none, false))
      else settle_probe o (record l { paths = map (pong_path pr.nonce now) l.paths }) pr now none

-- A ping unanswered for the timeout is a loss.
abbrev pub lose : DirectoryOptions → Time → PathState → PathState
lose o now p =
    if not (p.nonce == 0) && leb_ℤ (pos o.path_timeout) (sub_time now p.pinged_at)
    then record p { nonce = 0; fails = p.fails + 1 }
    else p

abbrev pub ping_interval : DirectoryOptions → PathState → ℕ
ping_interval o p =
    if not (ltb p.ponged_at p.pinged_at) || leb path_failures p.fails || p.no_route
    then o.path_probe_interval
    else 2 * o.path_timeout

abbrev pub is_due : DirectoryOptions → Time → PathState → Bool
is_due o now p =
    (p.nonce == 0)
    && (is_zero p.pinged_at || leb_ℤ (pos (ping_interval o p)) (sub_time now p.pinged_at))

-- A datagram for one path: its address, and the ping.
pub record Job : Type 0 where
  pub addr : Bytes
  pub probe : Probe

abbrev pub ping_of : DirectoryOptions → Link → Time → ℕ → PathState → Job
ping_of o l now nonce p = record {
  addr = p.addr;
  probe = record {
    kind = probe_ping;
    node_id = o.local_id;
    nonce = nonce;
    heard_ms = heard_ms l now;
  };
}

-- The loop of `checkPaths` over the paths of a link: the counter of nonces, the paths and the pings.
unfoldable pub ping_paths :
    DirectoryOptions → Link → Time → ℕ → List PathState → ℕ × (List PathState × List Job)
ping_paths o l now nonce [] = (nonce, ([], []))
ping_paths o l now nonce (p ∷ ps) =
    let q = lose o now p in
    let due = is_due o now q in
    let fresh = if due then add_word nonce 1 else nonce in
    let (last, (qs, jobs)) = ping_paths o l now fresh ps in
    if due
    then (last, (record q { nonce = fresh; pinged_at = now } ∷ qs, ping_of o l now fresh q ∷ jobs))
    else (last, (q ∷ qs, jobs))

-- What `Send` returns: nothing, `ErrNoRoute` or another error.
pub data Sent : Type 0 where
  delivered unroutable failed : Sent

-- `send`, of the path that a job was for.
abbrev pub sent_path : Bytes → Sent → PathState → PathState
sent_path a delivered p = if eqb p.addr a then record p { no_route = false } else p
sent_path a unroutable p = if eqb p.addr a then record p { no_route = true } else p
sent_path a failed p = p

-- A ping that never left is not a loss.
abbrev pub forget_ping : Job → Sent → PathState → PathState
forget_ping j unroutable p =
    if eqb p.addr j.addr && (p.nonce == j.probe.nonce) then record p { nonce = 0 } else p
forget_ping j delivered p = p
forget_ping j failed p = p
