-- ===== src/Domain/Codec/Sealed.antt =====
-- Records in the registry: what is sealed is opened again, and what is opened was sealed for its box.
use algod_loadb_mesh.Base.{
  ℕ, zero, suc, ◌≤◌, ◌≡◌, refl, ap, ◌∙◌, subst, inl, inr, true, false, Option, none, some, [], ◌∷◌,
  ◌++◌, arith, ltb, ◌==◌, ==_iff, Bool-cases, Bytes, eqb, eqb_refl, eq_of_eqb, length, take, drop,
  length-append, take-append-drop, take-length_append, drop-length_append,
}
use algod_loadb_mesh.Domain.Codec.{
  CodecError, not_authentic, bad_json, Result, ok, then_ok, Sealing, record_version,
  record_nonce_len, if_valid, box_name, seal_record, check_id, open_record,
}
use algod_loadb_mesh.Domain.Fleet.{plain}
use algod_loadb_mesh.Domain.NodeRecord.{Node, RecordError, validate}

take-nonce :
    (nonce rest : Bytes)
    → length nonce ≡ record_nonce_len
    → take record_nonce_len (nonce ++ rest) ≡ nonce
take-nonce nonce rest n =
    subst (λ k. take k (nonce ++ rest) ≡ nonce) n (take-length_append nonce rest)

drop-nonce :
    (nonce rest : Bytes)
    → length nonce ≡ record_nonce_len
    → drop record_nonce_len (nonce ++ rest) ≡ rest
drop-nonce nonce rest n =
    subst (λ k. drop k (nonce ++ rest) ≡ rest) n (drop-length_append nonce rest)

length-take_le : (i : ℕ) (xs : Bytes) → i ≤ length xs → length (take i xs) ≡ i
length-take_le zero xs h = refl
length-take_le (suc i) [] h = absurd (omega arith)
length-take_le (suc i) (x ∷ xs) h = ap suc (length-take_le i xs (omega arith))

not_short : {n : ℕ} → ltb n record_nonce_len ≡ false → record_nonce_len ≤ n
not_short h = ground arith

pub ok-injective : {A : Type 0} (a b : A) → ok a ≡ ok b → a ≡ b
ok-injective a b e = cc

pub then_ok-ok :
    {A B : Type 0} (k : CodecError) (o : Option A) (f : A → Result B) (b : B)
    → then_ok k o f ≡ ok b
    → (a : A) × (o ≡ some a) × (f a ≡ ok b)
then_ok-ok k none f b e = cc
then_ok-ok k (some a) f b e = (a, refl, e)

module _ (c : Sealing) where
  -- AES-GCM opens what it sealed under the same nonce and additional data.
  abbrev OpensSealed : Type 0
  OpensSealed =
      (nonce plain data_ : Bytes)
      → c.open_sealed nonce (c.seal nonce plain data_) data_ ≡ some plain

  -- A valid record that is sealed with a nonce of 12 bytes is opened again under its own box name,
  -- if JSON reads the record back.
  pub seal_open :
      OpensSealed
      → (r : Node) (nonce : Bytes) → validate r ≡ none
      → length nonce ≡ record_nonce_len
      → c.decode (c.encode r) ≡ some r
      → (blob : Bytes) × (seal_record c r nonce ≡ ok blob)
        × (open_record c (box_name c r.id) blob ≡ ok r)
  unfolding seal_record open_record
  seal_open opens r nonce valid n reads =
      let sealed = c.seal nonce (c.encode r) (box_name c r.id) in
      let sized : (length nonce == record_nonce_len) ≡ true = ground (arith, n) in
      let all_of = length-append nonce sealed in
      let long : ltb (length (nonce ++ sealed)) record_nonce_len ≡ false =
        ground (arith, n, all_of) in
      (
        record_version ∷ (nonce ++ sealed),
        rw valid (rw sized refl),
        rw long (
            rw (take-nonce nonce sealed n, drop-nonce nonce sealed n)
              (rw (opens nonce (c.encode r) (box_name c r.id))
                (rw reads (rw (eqb_refl (box_name c r.id)) (rw valid refl))))),
      )

  if_valid-ok : (o : Option RecordError) (x r : Node) → if_valid o x ≡ ok r → (o ≡ none) × (x ≡ r)
  if_valid-ok none x r e = (refl, ok-injective x r e)
  if_valid-ok (some k) x r e = cc

  check_id-ok :
      (name : Bytes) (x r : Node)
      → check_id c name x ≡ ok r
      → (x ≡ r) × (validate r ≡ none) × (box_name c r.id ≡ name)
  check_id-ok name x r e = elim (Bool-cases (eqb (box_name c x.id) name)) [
    | inl h ↦
        let v = if_valid-ok (validate x) x r (rw h at e) in
        (v.1, rw v.1 at v.0, rw v.1 at (eq_of_eqb _ _ h))
    | inr h ↦ let e' = (rw h at e) in cc
  ]

  -- A record that is opened is valid, is the one that its box is named for, and was read from a
  -- text that the cipher vouches for under that name.
  pub open_sound :
      (name blob : Bytes) (r : Node)
      → open_record c name blob ≡ ok r
      → (validate r ≡ none)
        × (box_name c r.id ≡ name)
        × ((nonce sealed plain : Bytes) × (blob ≡ record_version ∷ (nonce ++ sealed))
            × (length nonce ≡ record_nonce_len)
            × (c.open_sealed nonce sealed name ≡ some plain)
            × (c.decode plain ≡ some r))
  unfolding open_record
  open_sound name [] r e = cc
  open_sound name (v ∷ body) r e = elim (Bool-cases (ltb (length body) record_nonce_len)) [
    | inl short ↦ let e' = (rw short at e) in cc
    | inr long ↦
        let e' = (rw long at e) in
        elim (Bool-cases (v == record_version)) [
          | inl same ↦
              let e₂ = (rw same at e') in
              let (plain, opened, k) = then_ok-ok not_authentic _ _ r e₂ in
              let (x, reads, checked) = then_ok-ok bad_json _ _ r k in
              let (eq, valid, named) = check_id-ok name x r checked in
              let enough : record_nonce_len ≤ length body = not_short long in
              let version = (==_iff v record_version).0 same in
              (
                valid,
                named,
                (
                  take record_nonce_len body,
                  drop record_nonce_len body,
                  plain,
                  rw (version, take-append-drop record_nonce_len body) refl,
                  length-take_le record_nonce_len body enough,
                  opened,
                  reads ∙ ap some eq,
                ),
              )
          | inr other ↦ let e₂ = (rw other at e') in cc
        ]
  ]
