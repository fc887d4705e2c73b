-- ===== src/Domain/NodeRecord/Validity.antt =====
-- What `Validate` promises of a record.
use algod_loadb_mesh.Base.{
  ◌≤◌, ◌≡◌, refl, sym, ◌∙◌, ◌≢◌, ◌↔◌, ◌⊎◌, inl, inr, true, false, false≢true, none, List, [], ◌∷◌,
  arith, Bool-cases, Bytes, eqb, eq_of_eqb, eqb_iff, length, pos, ◌≤ℤ◌,
}
use algod_loadb_mesh.Domain.NodeRecord.{
  gossip_addrs, role_node, role_balancer, parse_role, Node, is_nil, validate,
}

-- A node has an endpoint, a balancer an address for heartbeats; there is no other role.
abbrev IsReached : Node → Type 0
IsReached r =
    (((r.role ≡ []) ⊎ (r.role ≡ role_node)) × (r.endpoints ≢ []))
    ⊎ ((r.role ≡ role_balancer) × (gossip_addrs r.agent ≢ []))

pub record IsValid (r : Node) : Type 0 where
  pub named : r.id ≢ []
  pub name_short : length r.id ≤ 48
  pub on_network : r.network ≢ []
  pub reached : IsReached r
  pub ranked : pos 0 ≤ℤ r.tier

eqb-false : (s t : Bytes) → s ≢ t → eqb s t ≡ false
eqb-false s t h = elim (Bool-cases (eqb s t)) [ inl e ↦ absurd (h (eq_of_eqb s t e)) | inr e ↦ e ]

ne_of_eqb : (s t : Bytes) → eqb s t ≡ false → s ≢ t
ne_of_eqb s t h e = let k : eqb s t ≡ true = (eqb_iff s t).1 e in false≢true (sym h ∙ k)

nil_iff : {A : Type 0} (xs : List A) → (is_nil xs ≡ true) ↔ (xs ≡ [])
nil_iff [] = (λ e. refl, λ e. refl)
nil_iff (x ∷ xs) = (λ e. cc, λ e. cc)

role_facts :
    (eqb role_node role_node ≡ true)
    × (eqb role_node role_balancer ≡ false)
    × (eqb role_balancer role_node ≡ false)
    × (eqb role_balancer role_balancer ≡ true)
    × (eqb [] role_balancer ≡ false)
    × (eqb role_balancer [] ≡ false)
unfolding eqb
role_facts = (refl, refl, refl, refl, refl, refl)

abbrev IsRoleChecked : Node → Type 0
IsRoleChecked r =
    (((eqb r.role [] ≡ true) ⊎ (eqb r.role role_node ≡ true)) × (is_nil r.endpoints ≡ false))
    ⊎ ((eqb r.role [] ≡ false)
        × (eqb r.role role_node ≡ false)
        × (eqb r.role role_balancer ≡ true)
        × (is_nil (gossip_addrs r.agent) ≡ false))

-- The checks of `Validate` as Booleans, in its order.
abbrev IsChecked : Node → Type 0
IsChecked r =
    (eqb r.id [] ≡ false)
    × (length r.id ≤ 48)
    × (eqb r.network [] ≡ false)
    × IsRoleChecked r
    × (pos 0 ≤ℤ r.tier)

IsChecked-iff : (r : Node) → (validate r ≡ none) ↔ IsChecked r
unfolding validate parse_role
IsChecked-iff r = let f = role_facts in ground (arith, f.0, f.1, f.2, f.3)

-- `Validate` gives no error exactly for the records that may be used for routing.
pub validate_iff : (r : Node) → (validate r ≡ none) ↔ IsValid r
validate_iff r = (λ e. sound ((IsChecked-iff r).0 e), λ v. (IsChecked-iff r).1 (complete v))
  where
    filled : {A : Type 0} (xs : List A) → is_nil xs ≡ false → xs ≢ []
    filled xs h e = false≢true (sym h ∙ (nil_iff xs).1 e)

    unfilled : {A : Type 0} (xs : List A) → xs ≢ [] → is_nil xs ≡ false
    unfilled xs h = elim (Bool-cases (is_nil xs)) [
      | inl e ↦ absurd (h ((nil_iff xs).0 e))
      | inr e ↦ e
    ]

    sound_role : IsRoleChecked r → IsReached r
    sound_role (inl (inl e, h)) = inl (inl (eq_of_eqb _ _ e), filled _ h)
    sound_role (inl (inr e, h)) = inl (inr (eq_of_eqb _ _ e), filled _ h)
    sound_role (inr (a, b, e, h)) = inr (eq_of_eqb _ _ e, filled _ h)

    sound : IsChecked r → IsValid r
    sound c = record {
      named = ne_of_eqb _ _ c.0;
      name_short = c.1;
      on_network = ne_of_eqb _ _ c.2;
      reached = sound_role c.3;
      ranked = c.4;
    }

    complete_role : IsReached r → IsRoleChecked r
    complete_role (inl (inl e, h)) = inl (inl ((eqb_iff _ _).1 e), unfilled _ h)
    complete_role (inl (inr e, h)) = inl (inr ((eqb_iff _ _).1 e), unfilled _ h)
    complete_role (inr (e, h)) =
        let f = role_facts in inr (rw e f.5, rw e f.2, rw e f.3, unfilled _ h)

    complete : IsValid r → IsChecked r
    complete v = (
      eqb-false _ _ v.named,
      v.name_short,
      eqb-false _ _ v.on_network,
      complete_role v.reached,
      v.ranked,
    )
