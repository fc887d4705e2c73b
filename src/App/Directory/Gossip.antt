-- ===== src/App/Directory/Gossip.antt =====
-- Messages of the other nodes: `handle`, `handleLocked` and `sendHeartbeat` of
-- internal/app/directory.go. The state changes under one lock, so each is one step. A message is
-- logged with a verdict, and `onUnknown` is called exactly on the verdict `unknown_node`.
pub mod Trust
pub mod Replay
use algod_loadb_mesh.Base.{
  ℕ, Bool, false, not, ◌&&◌, Option, none, some, List, [], ◌∷◌, ◌++◌, leb, ◌==◌, if◌then◌else◌,
  Time, sub_time, Bytes, eqb, length, pos, ltb_ℤ, lookup, assign, Float, add_word,
}
use algod_loadb_mesh.App.Directory.{Peer, Directory, note_round, best_round_at}
use algod_loadb_mesh.App.Link.{Link, cur_path, touch}
use algod_loadb_mesh.App.Link.Ping.{handle_probe}
use algod_loadb_mesh.App.Monitor.{LocalState}
use algod_loadb_mesh.App.Options.{DirectoryOptions, is_excluded}
use algod_loadb_mesh.Domain.Codec.{
  Result, ok, err, Heartbeat, Probe, Payload, heartbeat_payload, probe_payload, Envelope, Signing,
  encode_probe, decode_message,
}
use algod_loadb_mesh.Domain.Endpoint.{Net, normalize_addr}
use algod_loadb_mesh.Domain.Judge.{judge}

pub data Verdict : Type 0 where
  undecodable from_balancer unknown_node wrong_key stale accepted probed : Verdict

-- The directory after a message, the pong to send back, whether a path changed, and the verdict.
pub record Handled : Type 0 where
  pub dir : Directory
  pub reply : Option Probe
  pub switched : Bool
  pub verdict : Verdict

abbrev pub refused : Directory → Verdict → Handled
refused d v = record { dir = d; reply = none; switched = false; verdict = v }

-- `len(l.pub) == ed25519.PublicKeySize && env.PubKey.Equal(l.pub)`.
abbrev pub key_ok : Envelope → Link → Bool
key_ok env l = (length l.pub_key == 32) && eqb env.pub_key l.pub_key

abbrev pub with_link : Link → Peer → Peer
with_link l p = record p { ln = l }

abbrev pub set_peer : Bytes → Peer → Directory → Directory
set_peer id p d = record d { peers = assign id p d.peers }

-- Stale or duplicate: not past the last heartbeat, which is not yet too old to count.
abbrev pub is_stale : DirectoryOptions → Time → Heartbeat → Peer → Option Heartbeat → Bool
is_stale o now hb p none = false
is_stale o now hb p (some last) =
    leb hb.seq last.seq && ltb_ℤ (sub_time now p.seen_at) (pos o.down_after)

abbrev pub accept : Time → Heartbeat → Peer → Peer
accept now hb p = record p { hb = some hb; seen_at = now; silent = false }

-- The directory with an accepted heartbeat, before the peer is judged.
abbrev pub heard : DirectoryOptions → Directory → Time → Bytes → Heartbeat → Peer → Directory
heard o d now id hb p =
    let d' = set_peer id (accept now hb p) d in
    if hb.online && not (is_excluded o id) then note_round hb.last_round d' else d'

abbrev pub judge_peer : Time → Heartbeat → ℕ → Peer → Peer
judge_peer now hb best p = record p { judge = (judge p.judge now hb.online hb.last_round best).0 }

-- The end of `handleLocked`, for a heartbeat of peer `p`, whose link is already touched.
unfoldable pub handle_heartbeat :
    DirectoryOptions → Directory → LocalState → Time → Bytes → Heartbeat → Peer → Handled
handle_heartbeat o d node now id hb p =
    let q = with_link (record p.ln { heard_at = now }) p in
    let d' = heard o d now id hb q in
    if is_stale o now hb p p.hb then refused (set_peer id q d) stale else record {
      dir = set_peer id (judge_peer now hb (best_round_at o d' node now) (accept now hb q)) d';
      reply = none;
      switched = false;
      verdict = accepted;
    }

module _ {R : Type 0} (f : Float R) (n : Net) (o : DirectoryOptions) where
  abbrev pub peer_payload : Directory → LocalState → Time → Envelope → Peer → Payload → Handled
  peer_payload d node now env p (heartbeat_payload hb) =
      handle_heartbeat o d node now env.node_id hb p
  peer_payload d node now env p (probe_payload pr) =
      let (l, (reply, switched)) = handle_probe f o p.ln pr now in
      record {
        dir = set_peer env.node_id (with_link l p) d;
        reply = reply;
        switched = switched;
        verdict = probed;
      }

  abbrev pub peer_message : Directory → LocalState → Time → Bytes → Envelope → Peer → Handled
  peer_message d node now origin env p =
      if not (key_ok env p.ln)
      then refused d wrong_key
      else peer_payload d node now env (with_link (touch origin now p.ln) p) env.payload

  abbrev pub balancer_probe : Directory → Time → Bytes → Probe → Link → Handled
  balancer_probe d now id pr l =
      let (l', (reply, switched)) = handle_probe f o l pr now in
      record {
        dir = record d { balancers = assign id l' d.balancers };
        reply = reply;
        switched = switched;
        verdict = probed;
      }

  abbrev pub balancer_message :
      Directory → Time → Bytes → Envelope → Payload → Option Link → Handled
  balancer_message d now origin env pl none = refused d unknown_node
  balancer_message d now origin env (heartbeat_payload hb) (some l) = refused d from_balancer
  balancer_message d now origin env (probe_payload pr) (some l) =
      if not (key_ok env l)
      then refused d wrong_key
      else balancer_probe d now env.node_id pr (touch origin now l)

  abbrev pub node_message : Directory → LocalState → Time → Bytes → Envelope → Option Peer → Handled
  node_message d node now origin env none =
      balancer_message d now origin env env.payload (lookup env.node_id d.balancers)
  node_message d node now origin env (some p) = peer_message d node now origin env p

  -- `handleLocked`; `msg_from` is the address that the transport saw.
  unfoldable pub handle_message : Directory → LocalState → Time → Bytes → Envelope → Handled
  handle_message d node now msg_from env =
      node_message d node now (normalize_addr n msg_from) env (lookup env.node_id d.peers)

  abbrev pub handle_decoded : Directory → LocalState → Time → Bytes → Result Envelope → Handled
  handle_decoded d node now msg_from (err e) = refused d undecodable
  handle_decoded d node now msg_from (ok env) = handle_message d node now msg_from env

  -- The start of `handle`.
  unfoldable pub handle : Signing → Directory → LocalState → Time → Bytes → Bytes → Handled
  handle g d node now msg_from payload =
      handle_decoded d node now msg_from (decode_message g payload)

-- The rest of `handle`: the datagram to send back, if it is made.
abbrev to_wire : Bytes → Result Bytes → Option (Bytes × Bytes)
to_wire dest (err e) = none
to_wire dest (ok wire) = some (dest, wire)

unfoldable pong_wire : Signing → Bytes → Bytes → Option Probe → Option (Bytes × Bytes)
pong_wire g priv dest none = none
pong_wire g priv dest (some pr) = to_wire dest (encode_probe g priv pr)

abbrev link_addrs : List (Bytes × Link) → List Bytes
link_addrs [] = []
link_addrs ((id, l) ∷ ls) =
    let rest = link_addrs ls in elim (cur_path l) [ none ↦ rest | some p ↦ p.addr ∷ rest ]

abbrev pub peer_links : List (Bytes × Peer) → List (Bytes × Link)
peer_links [] = []
peer_links ((id, p) ∷ ps) = (id, p.ln) ∷ peer_links ps

-- `sendHeartbeat`, up to the sends: the directory, the heartbeat and the addresses it goes to, one
-- for each link with a path. A balancer sends none.
unfoldable send_heartbeat :
    DirectoryOptions → Directory → LocalState → Directory × Option (Heartbeat × List Bytes)
send_heartbeat o d node =
    let seq = add_word d.hb_seq 1 in
    let hb : Heartbeat = record {
      node_id = o.local_id;
      seq = seq;
      last_round = node.last_round;
      online = node.online;
      caps = node.caps;
      draining = d.draining;
    } in
    if o.no_local then (d, none) else (
      record d { hb_seq = seq },
      some (hb, link_addrs (peer_links d.peers) ++ link_addrs d.balancers),
    )

-- `onLocalChange`.
unfoldable on_local_change : DirectoryOptions → Directory → Time → LocalState → Directory
on_local_change o d now st =
    let d₁ = record d { local_seq = st.seq } in
    let d₂ = if st.online then note_round st.last_round d₁ else d₁ in
    let best = best_round_at o d₂ st now in
    if st.seq == d.local_seq
    then d
    else record d₂ { local_judge = (judge d₂.local_judge now st.online st.last_round best).0 }
