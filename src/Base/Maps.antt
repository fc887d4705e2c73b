-- ===== src/Base/Maps.antt =====
-- Go's maps from strings: lists of pairs, of which the first with a key counts.
use mathlib.Core.Path.{◌≡◌, refl, sym, subst, ◌∙◌}
use mathlib.Core.Logic.{inl, inr}
use mathlib.Core.Bool.{Bool, true, false}
use mathlib.Core.Option.{Option, none, some}
use mathlib.Core.List.{List, [], ◌∷◌}
use algod_loadb_mesh.Base.Tests.{if◌then◌else◌, Bool-cases, if_same, if_both}
use algod_loadb_mesh.Base.Text.{Bytes, eqb, eqb_refl, eq_of_eqb}

-- `v, ok := m[k]`.
unfoldable pub lookup {ℓ} : {A : Type ℓ} → Bytes → List (Bytes × A) → Option A
lookup k [] = none
lookup k ((j, v) ∷ m) = if eqb j k then some v else lookup k m

-- `m[k] = v`.
abbrev pub put {ℓ} : {A : Type ℓ} → Bytes → A → List (Bytes × A) → List (Bytes × A)
put k v m = (k, v) ∷ m

pub lookup-put {ℓ} :
    {A : Type ℓ} (k : Bytes) (v : A) (m : List (Bytes × A)) → lookup k (put k v m) ≡ some v
unfolding lookup
lookup-put k v m = rw (eqb_refl k) refl

-- `m[k] = v` in place, for a map that is walked: its keys stay apart.
unfoldable pub assign {ℓ} : {A : Type ℓ} → Bytes → A → List (Bytes × A) → List (Bytes × A)
assign k v [] = (k, v) ∷ []
assign k v ((j, w) ∷ m) = let rest = assign k v m in if eqb j k then (j, v) ∷ m else (j, w) ∷ rest

-- `delete(m, k)` for every key that fails a test.
unfoldable pub keep_keys {ℓ} : {A : Type ℓ} → (Bytes → Bool) → List (Bytes × A) → List (Bytes × A)
keep_keys p [] = []
keep_keys p ((j, w) ∷ m) = let rest = keep_keys p m in if p j then (j, w) ∷ rest else rest

abbrev pub keys {ℓ} : {A : Type ℓ} → List (Bytes × A) → List Bytes
keys [] = []
keys ((j, v) ∷ m) = j ∷ keys m

-- The values under some keys, in the order of the keys.
unfoldable pub entries_at {ℓ} : {A : Type ℓ} → List Bytes → List (Bytes × A) → List (Bytes × A)
unfolding lookup
entries_at [] m = []
entries_at (k ∷ ks) m =
    let rest = entries_at ks m in elim (lookup k m) [ none ↦ rest | some v ↦ (k, v) ∷ rest ]

pub lookup-assign {ℓ} :
    {A : Type ℓ} (k : Bytes) (v : A) (m : List (Bytes × A)) → lookup k (assign k v m) ≡ some v
unfolding lookup assign
lookup-assign k v [] = rw (eqb_refl k) refl
lookup-assign k v ((j, w) ∷ m) = elim (Bool-cases (eqb j k)) [
  | inl e ↦ rw e (rw e refl)
  | inr e ↦ rw e (rw e (lookup-assign k v m))
]

pub lookup-assign_other {ℓ} :
    {A : Type ℓ} (k j : Bytes) (v : A) (m : List (Bytes × A))
    → eqb k j ≡ false
    → lookup j (assign k v m) ≡ lookup j m
unfolding lookup assign
lookup-assign_other k j v [] d = rw d refl
lookup-assign_other k j v ((i, w) ∷ m) d = elim (Bool-cases (eqb i k)) [
  | inl e ↦
      let same : eqb i j ≡ false = subst (λ x. eqb x j ≡ false) (sym (eq_of_eqb i k e)) d in
      rw e (rw same refl)
  | inr e ↦ rw e (if_same (eqb i j) (some w) (lookup-assign_other k j v m d))
]

pub lookup-keep_keys {ℓ} :
    {A : Type ℓ} (p : Bytes → Bool) (k : Bytes) (m : List (Bytes × A))
    → lookup k (keep_keys p m) ≡ (if p k then lookup k m else none)
unfolding lookup keep_keys
lookup-keep_keys p k [] = if_both (p k) none
lookup-keep_keys p k ((j, w) ∷ m) = elim (Bool-cases (p j)) [
  | inl e ↦ elim (Bool-cases (eqb j k)) [
    | inl f ↦
        let e' : p k ≡ true = subst (λ x. p x ≡ true) (eq_of_eqb j k f) e in rw e (rw (f, e') refl)
    | inr f ↦ rw e (rw f (lookup-keep_keys p k m))
  ]
  | inr e ↦ elim (Bool-cases (eqb j k)) [
    | inl f ↦
        let e' : p k ≡ false = subst (λ x. p x ≡ false) (eq_of_eqb j k f) e in
        rw e (lookup-keep_keys p k m ∙ rw e' refl)
    | inr f ↦ rw e (rw f (lookup-keep_keys p k m))
  ]
]
