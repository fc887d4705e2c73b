-- ===== src/Base/Sort.antt =====
-- `sort.SliceStable`: the stable arrangement in which no element is less than one before it, as
-- an insertion sort. Go leaves the algorithm open and promises that result for a strict weak order.
use mathlib.Core.Path.{◌≡◌}
use mathlib.Core.Logic.{◌↔◌, inl, inr}
use mathlib.Core.Bool.{Bool, true, false}
use mathlib.Core.List.{List, [], ◌∷◌, Perm}
use mathlib.Core.List.Perm
use algod_loadb_mesh.Base.Tests.{if◌then◌else◌, Bool-cases}
use algod_loadb_mesh.Base.Lists.{All, Among}

module _ {ℓ} {A : Type ℓ} (less : A → A → Bool) where
  unfoldable pub insert_by : A → List A → List A
  insert_by x [] = x ∷ []
  insert_by x (y ∷ ys) = if less y x then y ∷ insert_by x ys else x ∷ y ∷ ys

  unfoldable pub sort_by : List A → List A
  unfolding insert_by
  sort_by [] = []
  sort_by (x ∷ xs) = insert_by x (sort_by xs)

  insert_by-perm : (x : A) (ys : List A) → Perm (insert_by x ys) (x ∷ ys)
  unfolding insert_by
  insert_by-perm x [] = Perm.refl (x ∷ [])
  insert_by-perm x (y ∷ ys) = elim (Bool-cases (less y x)) [
    | inl e ↦ rw e (Perm.trans (Perm.cons y (insert_by-perm x ys)) (Perm.swap x y ys))
    | inr e ↦ rw e (Perm.refl (x ∷ y ∷ ys))
  ]

  pub sort_by-perm : (xs : List A) → Perm (sort_by xs) xs
  unfolding sort_by
  sort_by-perm [] = Perm.nil
  sort_by-perm (x ∷ xs) = Perm.trans (insert_by-perm x (sort_by xs)) (Perm.cons x (sort_by-perm xs))

  -- No element is less than one before it.
  abbrev pub IsSorted : List A → Type 0
  IsSorted [] = Unit
  IsSorted (x ∷ xs) = All (λ y. less y x ≡ false) xs × IsSorted xs

  -- Incomparability is transitive, in the form that a proof needs, and `less` is asymmetric.
  pub record IsWeakOrder : Type ℓ where
    pub asymm : (a b : A) → less a b ≡ true → less b a ≡ false
    pub not_less_trans : (a b c : A) → less b a ≡ false → less c b ≡ false → less c a ≡ false

  module _ (w : IsWeakOrder) where
    All-not_less :
        (x y : A) (ys : List A)
        → less y x ≡ false
        → All (λ z. less z y ≡ false) ys
        → All (λ z. less z x ≡ false) ys
    All-not_less x y [] h a = tt
    All-not_less x y (z ∷ zs) h a = (w.not_less_trans x y z h a.0, All-not_less x y zs h a.1)

    All-insert_by :
        (a x : A) (ys : List A)
        → less x a ≡ false
        → All (λ z. less z a ≡ false) ys
        → All (λ z. less z a ≡ false) (insert_by x ys)
    unfolding insert_by
    All-insert_by a x [] h b = (h, tt)
    All-insert_by a x (y ∷ ys) h b = elim (Bool-cases (less y x)) [
      | inl e ↦ rw e (b.0, All-insert_by a x ys h b.1)
      | inr e ↦ rw e (h, b)
    ]

    insert_by-IsSorted : (x : A) (ys : List A) → IsSorted ys → IsSorted (insert_by x ys)
    unfolding insert_by
    insert_by-IsSorted x [] s = (tt, tt)
    insert_by-IsSorted x (y ∷ ys) s = elim (Bool-cases (less y x)) [
      | inl e ↦ rw e (All-insert_by y x ys (w.asymm y x e) s.0, insert_by-IsSorted x ys s.1)
      | inr e ↦ rw e ((e, All-not_less x y ys e s.0), s)
    ]

    pub sort_by-IsSorted : (xs : List A) → IsSorted (sort_by xs)
    unfolding sort_by
    sort_by-IsSorted [] = tt
    sort_by-IsSorted (x ∷ xs) = insert_by-IsSorted x (sort_by xs) (sort_by-IsSorted xs)

module _ {A : Type 0} (less : A → A → Bool) where
  Among-insert_by : (a x : A) (ys : List A) → Among a (insert_by less x ys) ↔ Among a (x ∷ ys)
  unfolding insert_by
  Among-insert_by a x [] = (λ m. m, λ m. m)
  Among-insert_by a x (y ∷ ys) =
      let ih = Among-insert_by a x ys in
      elim (Bool-cases (less y x)) [
        | inl e ↦ rw e (
          elim [
            | inl p ↦ inr (inl p)
            | inr m ↦ elim (ih.0 m) [ inl p ↦ inl p | inr q ↦ inr (inr q) ]
          ],
          elim [
            | inl p ↦ inr (ih.1 (inl p))
            | inr m ↦ elim m [ inl p ↦ inl p | inr q ↦ inr (ih.1 (inr q)) ]
          ],
        )
        | inr e ↦ rw e (λ m. m, λ m. m)
      ]

  pub Among-sort_by : (a : A) (xs : List A) → Among a (sort_by less xs) ↔ Among a xs
  unfolding sort_by
  Among-sort_by a [] = (λ m. m, λ m. m)
  Among-sort_by a (x ∷ xs) =
      let here = Among-insert_by a x (sort_by less xs) in
      let ih = Among-sort_by a xs in
      (
        λ m. elim (here.0 m) [ inl p ↦ inl p | inr q ↦ inr (ih.0 q) ],
        elim [ inl p ↦ here.1 (inl p) | inr q ↦ here.1 (inr (ih.1 q)) ],
      )
