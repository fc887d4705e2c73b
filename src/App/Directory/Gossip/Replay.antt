-- ===== src/App/Directory/Gossip/Replay.antt =====
-- What is kept of a node through the messages that arrive.
use algod_loadb_mesh.Base.{
  ℕ, ◌≤◌, ◌≡◌, refl, sym, ap, ◌∙◌, inl, inr, true, false, not, ◌&&◌, Option, none, some,
  some-injective, List, [], ◌∷◌, arith, ltb, Bool-cases, if_cases, Time, sub_time, Bytes, eqb,
  eq_of_eqb, All, pos, ltb_ℤ, lookup, assign, lookup-assign, lookup-assign_other, Float,
}
use algod_loadb_mesh.App.Directory.{Peer, Directory, note_round, best_round_at}
use algod_loadb_mesh.App.Directory.Gossip.{
  Handled, key_ok, with_link, set_peer, is_stale, accept, heard, judge_peer, handle_heartbeat,
  peer_payload, balancer_message, node_message, handle_message, handle_decoded, handle,
}
use algod_loadb_mesh.App.Link.{Link, touch}
use algod_loadb_mesh.App.Link.Ping.{handle_probe}
use algod_loadb_mesh.App.Monitor.{LocalState}
use algod_loadb_mesh.App.Options.{DirectoryOptions, is_excluded}
use algod_loadb_mesh.Domain.Codec.{
  Result, ok, err, Heartbeat, Payload, heartbeat_payload, probe_payload, Envelope, Signing,
  decode_message,
}
use algod_loadb_mesh.Domain.Endpoint.{Net, normalize_addr}

-- A datagram as it arrives: the state of the local node, the time, the source and the content.
pub record Arrival : Type 0 where
  pub node : LocalState
  pub at : Time
  pub origin : Bytes
  pub payload : Bytes

module _ {R : Type 0} (f : Float R) (n : Net) (o : DirectoryOptions) (g : Signing) where
  -- The loop of `receiveLoop`.
  abbrev pub receive : Directory → List Arrival → Directory
  receive d [] = d
  receive d (a ∷ rest) = receive (handle f n o g d a.node a.at a.origin a.payload).dir rest

  -- A heartbeat of the node is known, with this sequence number at least, since this time at least.
  abbrev pub IsKnownFrom : Bytes → ℕ → Time → Directory → Type 0
  IsKnownFrom id lo since d =
      (p : Peer) × (lookup id d.peers ≡ some p)
      × ((hb : Heartbeat) × (p.hb ≡ some hb) × (lo ≤ hb.seq))
      × (since ≤ p.seen_at)

  module _ (id : Bytes) (lo : ℕ) (since : Time) (d : Directory) where
    other_peer :
        (j : Bytes) (q : Peer)
        → eqb j id ≡ false
        → IsKnownFrom id lo since d
        → IsKnownFrom id lo since (set_peer j q d)
    other_peer j q e (p, k, h, s) = (p, lookup-assign_other j id q d.peers e ∙ k, h, s)

    this_peer :
        (e : Directory) (q : Peer) (hb : Heartbeat)
        → q.hb ≡ some hb
        → lo ≤ hb.seq
        → since ≤ q.seen_at
        → IsKnownFrom id lo since (set_peer id q e)
    this_peer e q hb k a b = (q, lookup-assign id q e.peers, (hb, k, a), b)

    other_balancer :
        (j : Bytes) (l : Link)
        → IsKnownFrom id lo since d
        → IsKnownFrom id lo since (record d { balancers = assign j l d.balancers })
    other_balancer j l h = h

    noted :
        (r : ℕ) (e : Directory)
        → IsKnownFrom id lo since e
        → IsKnownFrom id lo since (note_round r e)
    noted r e h = if_cases (IsKnownFrom id lo since) (ltb e.hb_round r) (λ k. h) (λ k. h)

    -- What the heartbeat of the node itself leaves.
    own_heartbeat :
        (node : LocalState) (now : Time) (hb last : Heartbeat) (p : Peer)
        → since ≤ now
        → ltb_ℤ (sub_time now since) (pos o.down_after) ≡ true
        → p.hb ≡ some last
        → lo ≤ last.seq
        → since ≤ p.seen_at
        → IsKnownFrom id lo since (handle_heartbeat o d node now id hb p).dir
    unfolding handle_heartbeat
    own_heartbeat node now hb last p a b k c s = elim (Bool-cases (is_stale o now hb p p.hb)) [
      | inl e ↦ rw e (this_peer d (with_link (record p.ln { heard_at = now }) p) last k c s)
      | inr e ↦
          let q = with_link (record p.ln { heard_at = now }) p in
          let d' = heard o d now id hb q in
          let young : lo ≤ hb.seq = ground (arith, ap (is_stale o now hb p) k) in
          rw e (
            this_peer d' (judge_peer now hb (best_round_at o d' node now) (accept now hb q)) hb refl
              young a)
    ]

    module _ (a : Arrival) (recent : since ≤ a.at)
        (soon : ltb_ℤ (sub_time a.at since) (pos o.down_after) ≡ true) where
      own_payload :
          (env : Envelope) (p : Peer) (last : Heartbeat) (pl : Payload)
          → env.node_id ≡ id
          → p.hb ≡ some last
          → lo ≤ last.seq
          → since ≤ p.seen_at
          → IsKnownFrom id lo since (peer_payload f n o d a.node a.at env p pl).dir
      own_payload env p last (heartbeat_payload hb) e k c s =
          rw e (own_heartbeat a.node a.at hb last p recent soon k c s)
      own_payload env p last (probe_payload pr) e k c s =
          let l = (handle_probe f o p.ln pr a.at).0 in rw e (this_peer d (with_link l p) last k c s)

      other_heartbeat :
          (j : Bytes) (hb : Heartbeat) (p : Peer)
          → eqb j id ≡ false
          → IsKnownFrom id lo since d
          → IsKnownFrom id lo since (handle_heartbeat o d a.node a.at j hb p).dir
      unfolding handle_heartbeat
      other_heartbeat j hb p e h =
          let q = with_link (record p.ln { heard_at = a.at }) p in
          let d' = heard o d a.at j hb q in
          let h' : IsKnownFrom id lo since d' =
            if_cases (IsKnownFrom id lo since) (hb.online && not (is_excluded o j))
              (λ k. noted hb.last_round _ (other_peer j (accept a.at hb q) e h))
              (λ k. other_peer j (accept a.at hb q) e h) in
          elim (Bool-cases (is_stale o a.at hb p p.hb)) [
            | inl t ↦ rw t (other_peer j q e h)
            | inr t ↦
                rw t
                  (let (p', k, r, s) = h' in (p', lookup-assign_other j id _ d'.peers e ∙ k, r, s))
          ]

      other_payload :
          (env : Envelope) (p : Peer) (pl : Payload)
          → eqb env.node_id id ≡ false
          → IsKnownFrom id lo since d
          → IsKnownFrom id lo since (peer_payload f n o d a.node a.at env p pl).dir
      other_payload env p (heartbeat_payload hb) e h = other_heartbeat env.node_id hb p e h
      other_payload env p (probe_payload pr) e h =
          other_peer env.node_id (with_link (handle_probe f o p.ln pr a.at).0 p) e h

      any_balancer :
          (env : Envelope) (pl : Payload) (known : Option Link)
          → IsKnownFrom id lo since d
          → IsKnownFrom id lo since
              (balancer_message f n o d a.at (normalize_addr n a.origin) env pl known).dir
      any_balancer env pl none h = h
      any_balancer env (heartbeat_payload hb) (some l) h = h
      any_balancer env (probe_payload pr) (some l) h =
          if_cases (λ (r : Handled). IsKnownFrom id lo since r.dir) (not (key_ok env l)) (λ k. h)
            (λ k. h)

      any_node :
          (env : Envelope) (known : Option Peer)
          → lookup env.node_id d.peers ≡ known
          → IsKnownFrom id lo since d
          → IsKnownFrom id lo since
              (node_message f n o d a.node a.at (normalize_addr n a.origin) env known).dir
      any_node env none k h = any_balancer env env.payload (lookup env.node_id d.balancers) h
      any_node env (some p) k h =
          let q = with_link (touch (normalize_addr n a.origin) a.at p.ln) p in
          if_cases (λ (r : Handled). IsKnownFrom id lo since r.dir) (not (key_ok env p.ln)) (λ t. h)
            (λ t. elim (Bool-cases (eqb env.node_id id)) [
              | inl e ↦
                  let same = eq_of_eqb env.node_id id e in
                  let (p', k', (last, r, c), s) = h in
                  let one : p' ≡ p = some-injective _ _ (sym k' ∙ (rw same at k)) in
                  own_payload env q last env.payload same (rw (sym one) r) c (rw (sym one) s)
              | inr e ↦ other_payload env q env.payload e h
            ])

      any_decoded :
          (r : Result Envelope)
          → IsKnownFrom id lo since d
          → IsKnownFrom id lo since (handle_decoded f n o d a.node a.at a.origin r).dir
      unfolding handle_message
      any_decoded (err e) h = h
      any_decoded (ok env) h = any_node env (lookup env.node_id d.peers) refl h

  -- The times of the arrivals, from `since` on and within `DownAfter` of it.
  abbrev pub AreWithin : Time → List Arrival → Type 0
  AreWithin since =
      All (λ a. (since ≤ a.at) × (ltb_ℤ (sub_time a.at since) (pos o.down_after) ≡ true))

  -- Whatever arrives, old messages sent again included, the heartbeat that is kept of a peer is never
  -- replaced by an earlier one, for as long as the heartbeats of the peer count as recent.
  pub receive_never_back :
      (id : Bytes) (lo : ℕ) (since : Time) (d : Directory) (arrivals : List Arrival)
      → AreWithin since arrivals
      → IsKnownFrom id lo since d
      → IsKnownFrom id lo since (receive d arrivals)
  unfolding handle
  receive_never_back id lo since d [] w h = h
  receive_never_back id lo since d (a ∷ rest) w h =
      receive_never_back id lo since (handle f n o g d a.node a.at a.origin a.payload).dir rest w.1
        (step a d w.0.0 w.0.1 h)
    where
      step :
          (b : Arrival) (e : Directory)
          → since ≤ b.at
          → ltb_ℤ (sub_time b.at since) (pos o.down_after) ≡ true
          → IsKnownFrom id lo since e
          → IsKnownFrom id lo since (handle f n o g e b.node b.at b.origin b.payload).dir
      step b e r s k = any_decoded id lo since e b r s (decode_message g b.payload) k
