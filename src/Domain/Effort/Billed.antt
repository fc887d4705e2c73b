-- ===== src/Domain/Effort/Billed.antt =====
-- A header that is read as an effort names each billed kind of work exactly once.
-- How many members of the header have a key.
use algod_loadb_mesh.Base.{
  ℕ, suc, ◌+◌, ◌≡◌, refl, sym, ap, inl, inr, Bool, true, false, false≢true, not, ◌||◌, Option, none,
  some, some-injective, List, [], ◌∷◌, arith, if◌then◌else◌, Bool-cases, Option-cases, is_some,
  Bytes, eqb, eq_of_eqb, split, parse_uint, All,
}
use algod_loadb_mesh.Domain.Effort.{
  Effort, no_effort, EffortField, field, Parsed, has_seen, member_parts, store, take_member,
  parse_member, parse_members, billed_effort_keys, all_billed, parse_effort,
}

abbrev pub key_count : Bytes → List Bytes → ℕ
key_count k [] = 0
key_count k (x ∷ xs) = if eqb (member_parts x).0 k then suc (key_count k xs) else key_count k xs

abbrev seen_count : List Bytes → Bytes → ℕ
seen_count seen k = if has_seen seen k then 1 else 0

-- A member with key `key` counts for `k` if they are the same.
abbrev counted : Bytes → Bytes → List Bytes → ℕ
counted key k seen = if eqb key k then suc (seen_count seen k) else seen_count seen k

store-count :
    (k key : Bytes) (p q : Parsed) (fl : EffortField) (o : Option ℕ)
    → has_seen p.seen key ≡ false
    → store p key fl o ≡ some q
    → seen_count q.seen k ≡ counted key k p.seen
store-count k key p q fl none fresh e = cc
store-count k key p q fl (some n) fresh e =
    let s : q.seen ≡ key ∷ p.seen = ap (λ (r : Parsed). r.seen) (sym (some-injective _ _ e)) in
    elim (Bool-cases (eqb key k)) [
      | inl h ↦ let unseen = (rw (eq_of_eqb key k h) at fresh) in rw s (rw (h, unseen) refl)
      | inr h ↦ rw s (rw h refl)
    ]

take-count :
    (k key val : Bytes) (ok : Bool) (p q : Parsed) (fl : Option EffortField)
    → is_some (field k) ≡ true
    → field key ≡ fl
    → take_member p key val ok fl ≡ some q
    → seen_count q.seen k ≡ counted key k p.seen
take-count k key val ok p q none known unknown e =
    let s : q.seen ≡ p.seen = ap (λ (r : Parsed). r.seen) (sym (some-injective _ _ e)) in
    elim (Bool-cases (eqb key k)) [
      | inl h ↦
          let same = eq_of_eqb key k h in
          let known_key : is_some (field key) ≡ true = rw same known in
          absurd (false≢true (rw unknown at known_key))
      | inr h ↦ rw (s, h) refl
    ]
take-count k key val ok p q (some fl) known field_is e =
    elim (Bool-cases (not ok || has_seen p.seen key)) [
      | inl h ↦ let e' = (rw h at e) in cc
      | inr h ↦ let e' = (rw h at e) in store-count k key p q fl (parse_uint val) (ground arith) e'
    ]

members-count :
    (k : Bytes) (xs : List Bytes) (p q : Parsed)
    → is_some (field k) ≡ true
    → parse_members p xs ≡ some q
    → seen_count q.seen k ≡ seen_count p.seen k + key_count k xs
unfolding parse_members parse_member
members-count k [] p q known e =
    let s : q.seen ≡ p.seen = ap (λ (r : Parsed). r.seen) (sym (some-injective _ _ e)) in
    rw s (omega arith)
members-count k (x ∷ xs) p q known e =
    let (key, val, ok) = member_parts x in
    elim (Option-cases (take_member p key val ok (field key))) [
      | inl h ↦ let e' = (rw h at e) in cc
      | inr (r, h) ↦
          let e' = (rw h at e) in
          let ih = members-count k xs r q known e' in
          let one = take-count k key val ok p r (field key) known refl h in
          elim (Bool-cases (eqb key k)) [
            | inl b ↦ let one' = (rw b at one) in rw b (omega (arith, ih, one'))
            | inr b ↦ let one' = (rw b at one) in rw b (omega (arith, ih, one'))
          ]
    ]

seen-one :
    (k : Bytes) (xs : List Bytes) (q : Parsed)
    → is_some (field k) ≡ true
    → parse_members (record { effort = no_effort; seen = [] }) xs ≡ some q
    → has_seen q.seen k ≡ true
    → key_count k xs ≡ 1
seen-one k xs q known e s =
    let n = members-count k xs (record { effort = no_effort; seen = [] }) q known e in
    let n' = (rw s at n) in omega (arith, n')

all_seen :
    (o : Option Parsed) (e : Effort)
    → all_billed o ≡ some e
    → (q : Parsed) × (o ≡ some q) × All (λ k. has_seen q.seen k ≡ true) billed_effort_keys
all_seen none e h = cc
all_seen (some q) e h = (q, refl, ground arith)

billed_known : All (λ k. is_some (field k) ≡ true) billed_effort_keys
unfolding field eqb
billed_known = (refl, (refl, (refl, (refl, (refl, tt)))))

ones :
    (xs : List Bytes) (q : Parsed)
    → parse_members (record { effort = no_effort; seen = [] }) xs ≡ some q
    → (ks : List Bytes) → All (λ k. is_some (field k) ≡ true) ks
    → All (λ k. has_seen q.seen k ≡ true) ks
    → All (λ k. key_count k xs ≡ 1) ks
ones xs q run [] known s = tt
ones xs q run (k ∷ ks) known s = (seen-one k xs q known.0 run s.0, ones xs q run ks known.1 s.1)

-- A header that is read as an effort has each billed key in exactly one member: one that lacks a
-- key, or has it twice, is refused.
pub parse_effort_billed :
    (v : Bytes) (e : Effort)
    → parse_effort v ≡ some e
    → All (λ k. key_count k (split b',' v) ≡ 1) billed_effort_keys
unfolding parse_effort
parse_effort_billed v e h =
    let (q, run, s) = all_seen _ e h in ones (split b',' v) q run billed_effort_keys billed_known s
