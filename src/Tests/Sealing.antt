-- ===== src/Tests/Sealing.antt =====
-- Records, messages and headers.
use algod_loadb_mesh.Base.{
  ◌≡◌, refl, ◌↔◌, true, false, none, some, [], ◌∷◌, ◌++◌, Bytes, codes, eqb, split, cut, trim_space,
  parse_uint, length, take, replicate, pos,
}
use algod_loadb_mesh.Domain.Codec.{
  ok, Sealing, record_version, record_nonce_len, box_name, seal_record, open_record, Heartbeat,
  heartbeat_payload, Envelope, Signing, decode_message,
}
use algod_loadb_mesh.Domain.Codec.Sealed.{seal_open, open_sound}
use algod_loadb_mesh.Domain.Codec.Signed.{IsCarried, decode_sound}
use algod_loadb_mesh.Domain.Effort.{
  Effort, field, member_parts, parse_member, parse_members, parse_effort,
}
use algod_loadb_mesh.Domain.NodeRecord.{gossip_addrs, parse_role, Node, validate}
use algod_loadb_mesh.Domain.NodeRecord.Validity.{IsValid, validate_iff}
use algod_loadb_mesh.Domain.Plan.{SimulateCaps}
use algod_loadb_mesh.Domain.Request.{SimulateNeeds}
use algod_loadb_mesh.Tests.Fixtures.{stock_caps}

abbrev pub toy_record : Node
toy_record = record {
  id = codes "n1";
  role = [];
  network = codes "mainnet-v1.0";
  endpoints = codes "http://10.0.0.2:8080" ∷ [];
  token = codes "t";
  agent = record { addrs = codes "10.0.0.2:4000" ∷ []; addr = []; pub_key = [] };
  tier = pos 1;
  tags = [];
  declared = none;
  version = pos 1;
  updated_at = 0;
}

-- A cipher that appends the additional data, and JSON of one record.
abbrev toy_sealing : Sealing
toy_sealing = record {
  seal = λ nonce text data_. text;
  open_sealed = λ nonce sealed data_. some sealed;
  box_tag = λ id. id;
  encode = λ r. [];
  decode = λ b. some toy_record;
}

abbrev toy_nonce : Bytes
toy_nonce = codes "0123456789ab"

checks : Unit {0}
unfolding validate parse_role gossip_addrs eqb box_name seal_record open_record
checks = tt

toy_valid : validate toy_record ≡ none
unfolding checks
toy_valid = refl

seal_open_example :
    (blob : Bytes) × (seal_record toy_sealing toy_record toy_nonce ≡ ok blob)
    × (open_record toy_sealing (box_name toy_sealing toy_record.id) blob ≡ ok toy_record)
seal_open_example =
    seal_open toy_sealing (λ nonce text data_. refl) toy_record toy_nonce toy_valid refl refl

toy_open : open_record toy_sealing (codes "nn1") (1 ∷ toy_nonce) ≡ ok toy_record
unfolding checks
toy_open = refl

open_sound_example :
    (validate toy_record ≡ none)
    × (box_name toy_sealing toy_record.id ≡ codes "nn1")
    × ((nonce sealed text : Bytes) × (1 ∷ toy_nonce ≡ record_version ∷ (nonce ++ sealed))
        × (length nonce ≡ record_nonce_len)
        × (some sealed ≡ some text)
        × (some toy_record ≡ some toy_record))
open_sound_example = open_sound toy_sealing (codes "nn1") (1 ∷ toy_nonce) toy_record toy_open

validate_iff_example : (validate toy_record ≡ none) ↔ IsValid toy_record
validate_iff_example = validate_iff toy_record

abbrev pub toy_heartbeat : Heartbeat
toy_heartbeat = record {
  node_id = codes "n1";
  seq = 1;
  last_round = 5000;
  online = true;
  caps = stock_caps;
  draining = false;
}

-- Signatures that always verify, and JSON of one heartbeat.
abbrev pub toy_signing : Signing
toy_signing = record {
  public = λ priv. replicate 32 1;
  sign = λ priv body. replicate 64 2;
  verify = λ key body sig. true;
  encode_hb = λ hb. codes "{}";
  decode_hb = λ b. some toy_heartbeat;
  encode_pr = λ p. codes "{}";
  decode_pr = λ b. none;
  decode_kind = λ b. some [];
}

abbrev pub toy_wire : Bytes
toy_wire = replicate 32 1 ++ (replicate 64 2 ++ codes "{}")

abbrev pub toy_envelope : Envelope
toy_envelope = record {
  pub_key = replicate 32 1;
  node_id = codes "n1";
  payload = heartbeat_payload toy_heartbeat;
}

pub decodes : decode_message toy_signing toy_wire ≡ ok toy_envelope
unfolding decode_message eqb
decodes = refl

decode_sound_example :
    (true ≡ true)
    × (toy_envelope.pub_key ≡ take 32 toy_wire)
    × (eqb toy_envelope.node_id [] ≡ false)
    × ((kind : Bytes) × (some [] ≡ some kind) × IsCarried toy_signing kind toy_envelope.payload)
decode_sound_example = decode_sound toy_signing toy_wire toy_envelope decodes

abbrev header : Bytes
header = codes "opcodes=1, lookups=2, history=3, scanned=4, trace-bytes=5"

abbrev reported : Effort
reported = record {
  opcodes = 1;
  lookups = 2;
  history = 3;
  scanned = 4;
  trace_bytes = 5;
  eval_us = 0;
}

parses : parse_effort header ≡ some reported
unfolding parse_effort parse_members parse_member member_parts field eqb split cut trim_space
    parse_uint
parses = refl

abbrev plan_caps : SimulateCaps
plan_caps = record {
  max_groups = 2;
  max_rounds = 0;
  max_extra_opcode_budget = 0;
  deny_unnamed_resources = false;
  deny_exec_trace = true;
}

abbrev needs : SimulateNeeds
needs = record {
  groups = 1;
  rounds = 9;
  extra_opcode_budget = 0;
  fork = false;
  developer_api = false;
  rounds_span = false;
  latest = false;
  exec_trace = false;
  unnamed_resources = false;
}
