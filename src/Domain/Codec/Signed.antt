-- ===== src/Domain/Codec/Signed.antt =====
-- Messages between agents: what is signed is decoded again, a decoded message was signed by the key
-- it names, and a probe is never taken for a heartbeat.
use algod_loadb_mesh.Base.{
  ◌+◌, ◌≤◌, ◌≡◌, refl, sym, ap, ◌∙◌, subst, inl, inr, true, false, some, [], ◌++◌, arith, ltb,
  Bool-cases, Bytes, eqb, length, take, drop, length-append, take-length_append, drop-length_append,
}
use algod_loadb_mesh.Domain.Codec.{
  bad_json, ok, then_ok, Heartbeat, Probe, Payload, heartbeat_payload, probe_payload, Envelope,
  Signing, heartbeat_header, encode_signed, encode_heartbeat, is_probe_kind, heartbeat_of, probe_of,
  decode_body, decode_message, decode_heartbeat,
}
use algod_loadb_mesh.Domain.Codec.Sealed.{ok-injective, then_ok-ok}
use mathlib.Core.List.{append_assoc}

module _ (g : Signing) where
  -- ed25519: the lengths of keys and signatures, and that a signature verifies.
  pub record SignsWell : Type 0 where
    pub key_length : (priv : Bytes) → length (g.public priv) ≡ 32
    pub sig_length : (priv body : Bytes) → length (g.sign priv body) ≡ 64
    pub verifies : (priv body : Bytes) → g.verify (g.public priv) body (g.sign priv body) ≡ true

  module _ (w : SignsWell) (priv body : Bytes) where
    key-part : take 32 (encode_signed g priv body) ≡ g.public priv
    unfolding encode_signed
    key-part =
        subst (λ k. take k (g.public priv ++ (g.sign priv body ++ body)) ≡ g.public priv)
          (w.key_length priv) (take-length_append (g.public priv) (g.sign priv body ++ body))

    after-key : drop 32 (encode_signed g priv body) ≡ g.sign priv body ++ body
    unfolding encode_signed
    after-key =
        subst (λ k. drop k (g.public priv ++ (g.sign priv body ++ body)) ≡ g.sign priv body ++ body)
          (w.key_length priv) (drop-length_append (g.public priv) (g.sign priv body ++ body))

    sig-part : take 64 (drop 32 (encode_signed g priv body)) ≡ g.sign priv body
    sig-part = rw after-key (
        subst (λ k. take k (g.sign priv body ++ body) ≡ g.sign priv body) (w.sig_length priv body)
          (take-length_append (g.sign priv body) body))

    body-part : drop heartbeat_header (encode_signed g priv body) ≡ body
    unfolding encode_signed
    body-part =
        let joined = g.public priv ++ g.sign priv body in
        let n : length joined ≡ heartbeat_header =
          length-append (g.public priv) (g.sign priv body)
          ∙ omega (arith, w.key_length priv, w.sig_length priv body) in
        let assoc = append_assoc (g.public priv) (g.sign priv body) body in
        subst (λ m. drop heartbeat_header m ≡ body) assoc
          (subst (λ k. drop k (joined ++ body) ≡ body) n (drop-length_append joined body))

    signed-length : length (encode_signed g priv body) ≡ heartbeat_header + length body
    unfolding encode_signed
    signed-length =
        let a = length-append (g.public priv) (g.sign priv body ++ body) in
        let b = length-append (g.sign priv body) body in
        omega (arith, a, b, w.key_length priv, w.sig_length priv body)

    decode-signed :
        2 ≤ length body
        → decode_message g (encode_signed g priv body)
          ≡ then_ok bad_json (g.decode_kind body) (decode_body g (g.public priv) body)
    unfolding decode_message
    decode-signed two =
        let n = signed-length in
        let long : ltb (length (encode_signed g priv body)) (heartbeat_header + 2) ≡ false =
          ground (arith, n, two) in
        rw long (rw (key-part, sig-part, body-part) (rw (w.verifies priv body) refl))

  -- A heartbeat that is signed and sent is decoded again with the key that signed it, if it names
  -- its node and JSON reads it back.
  pub heartbeat_sent :
      SignsWell
      → (priv : Bytes) (hb : Heartbeat) → eqb hb.node_id [] ≡ false
      → 2 ≤ length (g.encode_hb hb)
      → g.decode_kind (g.encode_hb hb) ≡ some []
      → g.decode_hb (g.encode_hb hb) ≡ some hb
      → (wire : Bytes) × (encode_heartbeat g priv hb ≡ ok wire)
        × (decode_heartbeat g wire ≡ ok (hb, g.public priv))
  unfolding encode_heartbeat decode_heartbeat eqb
  heartbeat_sent w priv hb named two kind reads =
      let e = decode-signed w priv (g.encode_hb hb) two in
      (encode_signed g priv (g.encode_hb hb), refl, rw e (rw kind (rw reads (rw named refl))))

  heartbeat_of-ok :
      (key : Bytes) (hb : Heartbeat) (env : Envelope)
      → heartbeat_of g key hb ≡ ok env
      → (env.pub_key ≡ key) × (eqb env.node_id [] ≡ false) × (env.payload ≡ heartbeat_payload hb)
  heartbeat_of-ok key hb env e = elim (Bool-cases (eqb hb.node_id [])) [
    | inl h ↦ let e' = (rw h at e) in cc
    | inr h ↦
        let s = ok-injective _ _ (rw h at e) in
        (
          ap (λ (x : Envelope). x.pub_key) (sym s),
          subst (λ (x : Envelope). eqb x.node_id [] ≡ false) s h,
          ap (λ (x : Envelope). x.payload) (sym s),
        )
  ]

  probe_of-ok :
      (key : Bytes) (p : Probe) (env : Envelope)
      → probe_of g key p ≡ ok env
      → (env.pub_key ≡ key) × (eqb env.node_id [] ≡ false) × (env.payload ≡ probe_payload p)
  probe_of-ok key p env e = elim (Bool-cases (is_probe_kind g p.kind)) [
    | inl k ↦
        let e₁ = (rw k at e) in
        elim (Bool-cases (eqb p.node_id [])) [
          | inl h ↦ let e' = (rw h at e₁) in cc
          | inr h ↦
              let s = ok-injective _ _ (rw h at e₁) in
              (
                ap (λ (x : Envelope). x.pub_key) (sym s),
                subst (λ (x : Envelope). eqb x.node_id [] ≡ false) s h,
                ap (λ (x : Envelope). x.payload) (sym s),
              )
        ]
    | inr k ↦ let e' = (rw k at e) in cc
  ]

  -- What a message carries, by its field "t".
  abbrev pub IsCarried : Bytes → Payload → Type 0
  IsCarried kind (heartbeat_payload hb) = eqb kind [] ≡ true
  IsCarried kind (probe_payload p) = eqb kind [] ≡ false

  decode_body-ok :
      (key body kind : Bytes) (env : Envelope)
      → decode_body g key body kind ≡ ok env
      → (env.pub_key ≡ key) × (eqb env.node_id [] ≡ false) × IsCarried kind env.payload
  decode_body-ok key body kind env e = elim (Bool-cases (eqb kind [])) [
    | inl h ↦
        let (hb, r, k) =
          then_ok-ok bad_json (g.decode_hb body) (heartbeat_of g key) env (rw h at e) in
        let s = heartbeat_of-ok key hb env k in (s.0, s.1, rw s.2 h)
    | inr h ↦
        let (p, r, k) = then_ok-ok bad_json (g.decode_pr body) (probe_of g key) env (rw h at e) in
        let s = probe_of-ok key p env k in (s.0, s.1, rw s.2 h)
  ]

  -- A message that is decoded carries a signature of its body under the key that it names, names
  -- a node, and carries a heartbeat exactly if its field "t" is empty, else a probe.
  pub decode_sound :
      (wire : Bytes) (env : Envelope)
      → decode_message g wire ≡ ok env
      → (g.verify env.pub_key (drop heartbeat_header wire) (take 64 (drop 32 wire)) ≡ true)
        × (env.pub_key ≡ take 32 wire)
        × (eqb env.node_id [] ≡ false)
        × ((kind : Bytes) × (g.decode_kind (drop heartbeat_header wire) ≡ some kind)
            × IsCarried kind env.payload)
  unfolding decode_message
  decode_sound wire env e = elim (Bool-cases (ltb (length wire) (heartbeat_header + 2))) [
    | inl short ↦ let e' = (rw short at e) in cc
    | inr long ↦
        let e₁ = (rw long at e) in
        elim (Bool-cases
          (g.verify (take 32 wire) (drop heartbeat_header wire) (take 64 (drop 32 wire)))) [
            | inl v ↦
                let (kind, read, k) =
                  then_ok-ok bad_json (g.decode_kind (drop heartbeat_header wire))
                    (decode_body g (take 32 wire) (drop heartbeat_header wire)) env (rw v at e₁) in
                let s = decode_body-ok (take 32 wire) (drop heartbeat_header wire) kind env k in
                (rw s.0 v, s.0, s.1, (kind, read, s.2))
            | inr v ↦ let e' = (rw v at e₁) in cc
          ]
  ]
