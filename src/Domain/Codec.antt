-- ===== src/Domain/Codec.antt =====
-- How records and messages are sealed and signed: internal/domain/codec.go. AES-GCM, ed25519, the
-- keyed hash of the box names and JSON are parameters of the model, here as records of functions.
-- Errors are named where the source words them. A key has 32 bytes, so that the cipher is always
-- made; JSON of these types is always made too.
pub mod Sealed
pub mod Signed
use algod_loadb_mesh.Base.{
  ℕ, ◌+◌, Bool, not, ◌&&◌, ◌||◌, Option, none, some, [], ◌∷◌, ◌++◌, ltb, ◌==◌, if◌then◌else◌, Bytes,
  codes, eqb, length, take, drop, ℤ,
}
use algod_loadb_mesh.Domain.Capabilities.{Capabilities}
use algod_loadb_mesh.Domain.Fleet.{plain}
use algod_loadb_mesh.Domain.NodeRecord.{Node, RecordError, validate}
use algod_loadb_mesh.Domain.Upstream.{online}

pub data CodecError : Type 0 where
  invalid_record : RecordError → CodecError
  bad_nonce too_short bad_version not_authentic bad_json wrong_id : CodecError
  bad_signature empty_node_id bad_probe_type not_a_heartbeat : CodecError

pub data Result {ℓ} (A : Type ℓ) : Type ℓ where
  ok : A → Result A
  err : CodecError → Result A

abbrev pub then_ok {ℓ} : {A B : Type ℓ} → CodecError → Option A → (A → Result B) → Result B
then_ok e none k = err e
then_ok e (some a) k = k a

-- `aead.Seal(nil, nonce, plain, data)` and `aead.Open(nil, nonce, cipher, data)` under a key, the keyed
-- hash that names a box, and JSON of a record.
pub record Sealing : Type 0 where
  pub seal : Bytes → Bytes → Bytes → Bytes
  pub open_sealed : Bytes → Bytes → Bytes → Option Bytes
  pub box_tag : Bytes → Bytes
  pub encode : Node → Bytes
  pub decode : Bytes → Option Node

abbrev pub record_version : ℕ
record_version = 1

abbrev pub record_nonce_len : ℕ
record_nonce_len = 12

abbrev box_key_prefix : Bytes
box_key_prefix = codes "n"

abbrev box_tag_len : ℕ
box_tag_len = 16

abbrev pub if_valid : Option RecordError → Node → Result Node
if_valid none r = ok r
if_valid (some e) r = err (invalid_record e)

module _ (c : Sealing) where
  unfoldable pub box_name : Bytes → Bytes
  box_name id = box_key_prefix ++ c.box_tag id

  abbrev seal_valid : Option RecordError → Node → Bytes → Result Bytes
  seal_valid (some e) r nonce = err (invalid_record e)
  seal_valid none r nonce =
      if not (length nonce == record_nonce_len)
      then err bad_nonce
      else ok (record_version ∷ (nonce ++ c.seal nonce (c.encode r) (box_name r.id)))

  -- `SealRecord`.
  unfoldable pub seal_record : Node → Bytes → Result Bytes
  seal_record r nonce = seal_valid (validate r) r nonce

  -- The record that the plain text holds must be the one that the box is named for.
  abbrev pub check_id : Bytes → Node → Result Node
  check_id name r = if not (eqb (box_name r.id) name) then err wrong_id else if_valid (validate r) r

  abbrev open_body : Bytes → Bytes → Result Node
  open_body name body =
      then_ok not_authentic
        (c.open_sealed (take record_nonce_len body) (drop record_nonce_len body) name)
        (λ plain. then_ok bad_json (c.decode plain) (check_id name))

  -- `OpenRecord`.
  unfoldable pub open_record : Bytes → Bytes → Result Node
  open_record name [] = err too_short
  open_record name (v ∷ body) =
      if ltb (length body) record_nonce_len
      then err too_short
      else if not (v == record_version)
      then err bad_version
      else open_body name body

-- `IsRecordBox`.
unfoldable is_record_box : Bytes → Bool
is_record_box name = (length name == 1 + box_tag_len) && eqb (take 1 name) box_key_prefix

pub record Heartbeat : Type 0 where
  pub node_id : Bytes
  pub seq : ℕ
  pub last_round : ℕ
  pub online : Bool
  pub caps : Capabilities
  pub draining : Bool

-- `Type` is the kind of the probe, `nonce` the number that a pong echoes.
pub record Probe : Type 0 where
  pub kind : Bytes
  pub node_id : Bytes
  pub nonce : ℕ
  pub heard_ms : ℤ

abbrev pub probe_ping : Bytes
probe_ping = codes "ping"

abbrev pub probe_pong : Bytes
probe_pong = codes "pong"

-- What a message carries: `HB` or `Probe` of the envelope.
pub data Payload : Type 0 where
  heartbeat_payload : Heartbeat → Payload
  probe_payload : Probe → Payload

pub record Envelope : Type 0 where
  pub pub_key : Bytes
  pub node_id : Bytes
  pub payload : Payload

-- ed25519 under a private key, and JSON of the messages and of their field "t".
pub record Signing : Type 0 where
  pub public : Bytes → Bytes
  pub sign : Bytes → Bytes → Bytes
  pub verify : Bytes → Bytes → Bytes → Bool
  pub encode_hb : Heartbeat → Bytes
  pub decode_hb : Bytes → Option Heartbeat
  pub encode_pr : Probe → Bytes
  pub decode_pr : Bytes → Option Probe
  pub decode_kind : Bytes → Option Bytes

abbrev pub heartbeat_header : ℕ
heartbeat_header = 96

module _ (g : Signing) where
  unfoldable pub encode_signed : Bytes → Bytes → Bytes
  encode_signed priv body = g.public priv ++ (g.sign priv body ++ body)

  unfoldable pub encode_heartbeat : Bytes → Heartbeat → Result Bytes
  encode_heartbeat priv hb = ok (encode_signed priv (g.encode_hb hb))

  abbrev pub is_probe_kind : Bytes → Bool
  is_probe_kind k = eqb k probe_ping || eqb k probe_pong

  unfoldable pub encode_probe : Bytes → Probe → Result Bytes
  encode_probe priv p =
      if not (is_probe_kind p.kind)
      then err bad_probe_type
      else ok (encode_signed priv (g.encode_pr p))

  abbrev pub heartbeat_of : Bytes → Heartbeat → Result Envelope
  heartbeat_of key hb =
      if eqb hb.node_id []
      then err empty_node_id
      else ok (record { pub_key = key; node_id = hb.node_id; payload = heartbeat_payload hb })

  abbrev pub probe_of : Bytes → Probe → Result Envelope
  probe_of key p =
      if not (is_probe_kind p.kind)
      then err bad_probe_type
      else if eqb p.node_id []
      then err empty_node_id
      else ok (record { pub_key = key; node_id = p.node_id; payload = probe_payload p })

  -- The rest of `DecodeMessage`, once the field "t" is read.
  abbrev pub decode_body : Bytes → Bytes → Bytes → Result Envelope
  decode_body key body kind =
      if eqb kind []
      then then_ok bad_json (g.decode_hb body) (heartbeat_of key)
      else then_ok bad_json (g.decode_pr body) (probe_of key)

  abbrev decode_parts : Bytes → Bytes → Bytes → Result Envelope
  decode_parts key sig body =
      if not (g.verify key body sig)
      then err bad_signature
      else then_ok bad_json (g.decode_kind body) (decode_body key body)

  -- `DecodeMessage`.
  unfoldable pub decode_message : Bytes → Result Envelope
  decode_message wire =
      if ltb (length wire) (heartbeat_header + 2)
      then err too_short
      else decode_parts (take 32 wire) (take 64 (drop 32 wire)) (drop heartbeat_header wire)

  abbrev only_heartbeat : Envelope → Payload → Result (Heartbeat × Bytes)
  only_heartbeat env (heartbeat_payload hb) = ok (hb, env.pub_key)
  only_heartbeat env (probe_payload p) = err not_a_heartbeat

  abbrev heartbeat_only : Result Envelope → Result (Heartbeat × Bytes)
  heartbeat_only (err e) = err e
  heartbeat_only (ok env) = only_heartbeat env env.payload

  -- `DecodeHeartbeat`.
  unfoldable pub decode_heartbeat : Bytes → Result (Heartbeat × Bytes)
  decode_heartbeat wire = heartbeat_only (decode_message wire)
