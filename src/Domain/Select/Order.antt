-- ===== src/Domain/Select/Order.antt =====
-- The comparison of the candidates is a strict weak order, so that the sort has one result.
use algod_loadb_mesh.Base.{
  ◌≡◌, refl, Bool, true, false, not, [], ◌∷◌, arith, if◌then◌else◌, Bytes, ltb_bytes, IsWeakOrder,
  Float, IsOrdered,
}
use algod_loadb_mesh.Domain.Request.{RequestClass}
use algod_loadb_mesh.Domain.Select.{Mode, before}
use algod_loadb_mesh.Domain.Upstream.{Upstream}

ltb_bytes-asymm : (s t : Bytes) → ltb_bytes s t ≡ true → ltb_bytes t s ≡ false
unfolding ltb_bytes
ltb_bytes-asymm [] (y ∷ t) h = refl
ltb_bytes-asymm [] [] h = refl
ltb_bytes-asymm (x ∷ s) [] h = cc
ltb_bytes-asymm (x ∷ s) (y ∷ t) h = ground (arith, ltb_bytes-asymm s t)

ltb_bytes-not_less_trans :
    (s t u : Bytes) → ltb_bytes t s ≡ false → ltb_bytes u t ≡ false → ltb_bytes u s ≡ false
unfolding ltb_bytes
ltb_bytes-not_less_trans [] [] [] h k = refl
ltb_bytes-not_less_trans [] [] (z ∷ u) h k = refl
ltb_bytes-not_less_trans [] (y ∷ t) [] h k = cc
ltb_bytes-not_less_trans [] (y ∷ t) (z ∷ u) h k = refl
ltb_bytes-not_less_trans (x ∷ s) [] u h k = cc
ltb_bytes-not_less_trans (x ∷ s) (y ∷ t) [] h k = cc
ltb_bytes-not_less_trans (x ∷ s) (y ∷ t) (z ∷ u) h k =
    ground (arith, ltb_bytes-not_less_trans s t u)

module _ {R : Type 0} ⦃f : Float R⦄ (o : IsOrdered f) (mode : Mode) (c : RequestClass)
    (has_tt : Bool) where
  -- The last two keys: score, then id.
  abbrev by_score : Upstream R → Upstream R → Bool
  by_score a b = if not (f.eq a.score b.score) then f.lt a.score b.score else ltb_bytes a.id b.id

  by_score-asymm : (a b : Upstream R) → by_score a b ≡ true → by_score b a ≡ false
  by_score-asymm a b h = ground (
    arith,
    o.lt_asymm a.score b.score,
    o.eq_symm a.score b.score,
    o.eq_symm b.score a.score,
    ltb_bytes-asymm a.id b.id,
  )

  by_score_trans :
      (a b d : Upstream R) → by_score b a ≡ false → by_score d b ≡ false → by_score d a ≡ false
  by_score_trans a b d h k = ground (
    arith,
    ltb_bytes-not_less_trans a.id b.id d.id,
    o.lt_connex b.score a.score,
    o.lt_connex d.score b.score,
    o.eq_symm b.score a.score,
    o.eq_symm d.score b.score,
    o.eq_symm d.score a.score,
    o.eq_symm a.score d.score,
    o.eq_trans d.score b.score a.score,
    o.lt_trans a.score b.score d.score,
    o.lt_asymm a.score d.score,
    o.lt_eq a.score b.score d.score,
    o.eq_symm b.score d.score,
    o.eq_symm a.score b.score,
    o.eq_lt a.score b.score d.score,
    o.lt_not_eq a.score d.score,
  )

  pub before-IsWeakOrder : IsWeakOrder (before {R = R} mode c has_tt)
  unfolding before
  before-IsWeakOrder = record {
    asymm = λ a b h. ground (arith, by_score-asymm a b);
    not_less_trans = λ a b d h k. ground (arith, by_score_trans a b d);
  }
