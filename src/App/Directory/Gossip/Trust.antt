-- ===== src/App/Directory/Gossip/Trust.antt =====
-- Whose messages are believed, and what of the directory a message can change.
use algod_loadb_mesh.Base.{
  ◌≡◌, refl, subst, ◌⊎◌, inl, inr, true, false, Option, none, some, arith, Bool-cases, Time, Bytes,
  eqb, eq_of_eqb, length, take, drop, lookup, Float,
}
use algod_loadb_mesh.App.Directory.{Peer, Directory}
use algod_loadb_mesh.App.Directory.Gossip.{
  Handled, key_ok, balancer_message, node_message, handle_message, handle_decoded, handle,
}
use algod_loadb_mesh.App.Link.{Link}
use algod_loadb_mesh.App.Monitor.{LocalState}
use algod_loadb_mesh.App.Options.{DirectoryOptions}
use algod_loadb_mesh.Domain.Codec.{
  Result, ok, err, Payload, heartbeat_payload, probe_payload, Envelope, Signing, heartbeat_header,
  decode_message,
}
use algod_loadb_mesh.Domain.Codec.Signed.{decode_sound}
use algod_loadb_mesh.Domain.Endpoint.{Net, normalize_addr}

-- A link that the directory has for a node.
abbrev pub IsLinkOf : Directory → Bytes → Link → Type 0
IsLinkOf d id l =
    ((p : Peer) × (lookup id d.peers ≡ some p) × (p.ln ≡ l)) ⊎ (lookup id d.balancers ≡ some l)

-- The payload is signed with the key that the registry has for the node that it names.
abbrev pub IsSigned : Signing → Directory → Bytes → Type 0
IsSigned g d payload =
    (env : Envelope) × (decode_message g payload ≡ ok env)
    × ((l : Link) × IsLinkOf d env.node_id l
        × (length l.pub_key ≡ 32)
        × (g.verify l.pub_key (drop heartbeat_header payload) (take 64 (drop 32 payload)) ≡ true))

abbrev pub IsIgnored : Directory → Handled → Type 0
IsIgnored d h = (h.dir ≡ d) × (h.reply ≡ none) × (h.switched ≡ false)

key_ok-facts :
    (env : Envelope) (l : Link)
    → key_ok env l ≡ true
    → (length l.pub_key ≡ 32) × (env.pub_key ≡ l.pub_key)
key_ok-facts env l h =
    let s : eqb env.pub_key l.pub_key ≡ true = ground arith in
    (ground arith, eq_of_eqb env.pub_key l.pub_key s)

module _ {R : Type 0} (f : Float R) (n : Net) (o : DirectoryOptions) (g : Signing) (d : Directory)
    (node : LocalState) (now : Time) (msg_from payload : Bytes) where
  signed :
      (env : Envelope) (l : Link)
      → decode_message g payload ≡ ok env
      → IsLinkOf d env.node_id l
      → key_ok env l ≡ true
      → IsSigned g d payload
  signed env l e k h =
      let (len, same) = key_ok-facts env l h in
      let s = decode_sound g payload env e in
      (
        env,
        e,
        (
          l,
          k,
          len,
          subst
              (λ k'. g.verify k' (drop heartbeat_header payload) (take 64 (drop 32 payload)) ≡ true)
              same s.0,
        ),
      )

  from_balancers :
      (env : Envelope) (pl : Payload) (known : Option Link)
      → decode_message g payload ≡ ok env
      → lookup env.node_id d.balancers ≡ known
      → IsIgnored d (balancer_message f n o d now (normalize_addr n msg_from) env pl known)
        ⊎ IsSigned g d payload
  from_balancers env pl none e k = inl (refl, refl, refl)
  from_balancers env (heartbeat_payload hb) (some l) e k = inl (refl, refl, refl)
  from_balancers env (probe_payload pr) (some l) e k = elim (Bool-cases (key_ok env l)) [
    | inl t ↦ inr (signed env l e (inr k) t)
    | inr t ↦ inl (rw t (refl, refl, refl))
  ]

  from_nodes :
      (env : Envelope) (known : Option Peer)
      → decode_message g payload ≡ ok env
      → lookup env.node_id d.peers ≡ known
      → IsIgnored d (node_message f n o d node now (normalize_addr n msg_from) env known)
        ⊎ IsSigned g d payload
  from_nodes env none e k = from_balancers env env.payload _ e refl
  from_nodes env (some p) e k = elim (Bool-cases (key_ok env p.ln)) [
    | inl t ↦ inr (signed env p.ln e (inl (p, k, refl)) t)
    | inr t ↦ inl (rw t (refl, refl, refl))
  ]

  from_decoded :
      (r : Result Envelope)
      → decode_message g payload ≡ r
      → IsIgnored d (handle_decoded f n o d node now msg_from r) ⊎ IsSigned g d payload
  unfolding handle_message
  from_decoded (err e) k = inl (refl, refl, refl)
  from_decoded (ok env) k = from_nodes env (lookup env.node_id d.peers) k refl

  -- A datagram changes nothing and is not answered, unless it is signed with the key that the
  -- registry has for the peer or the balancer that it names.
  pub handle_trusted :
      IsIgnored d (handle f n o g d node now msg_from payload) ⊎ IsSigned g d payload
  unfolding handle
  handle_trusted = from_decoded (decode_message g payload) refl
