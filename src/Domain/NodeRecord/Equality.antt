-- ===== src/Domain/NodeRecord/Equality.antt =====
-- Two records that `StaticEqual` takes for one agree in every static fact, and the other way.
use algod_loadb_mesh.Base.{
  ◌≡◌, refl, ap, ◌↔◌, Bool, true, ◌&&◌, Option, none, some, some-injective, List, [], ◌∷◌, arith,
  ==_refl, Bytes, eqb_refl, eq_of_eqb, eqb_iff, length, eq_of_parts,
}
use algod_loadb_mesh.Domain.Capabilities.{Archival, SimulateLimits, CapabilityOverrides}
use algod_loadb_mesh.Domain.NodeRecord.{
  gossip_addrs, Node, is_balancer, equal_elems, equal_strings, equal_option, equal_archival,
  equal_bool, equal_limits, equal_fields, equal_overrides, static_equal,
}

eq_of_equal_elems : (a b : List Bytes) → length a ≡ length b → equal_elems a b ≡ true → a ≡ b
eq_of_equal_elems [] [] n e = refl
eq_of_equal_elems [] (b ∷ bs) n e = absurd (omega (arith, n))
eq_of_equal_elems (a ∷ rest) [] n e = absurd (omega (arith, n))
eq_of_equal_elems (a ∷ rest) (b ∷ bs) n e =
    let p = eq_of_eqb a b (ground arith) in
    let q = eq_of_equal_elems rest bs (omega (arith, n)) (ground arith) in rw (p, q) refl

equal_elems_refl : (a : List Bytes) → equal_elems a a ≡ true
equal_elems_refl [] = refl
equal_elems_refl (a ∷ rest) = rw (eqb_refl a) (equal_elems_refl rest)

equal_strings_iff : (a b : List Bytes) → (equal_strings a b ≡ true) ↔ (a ≡ b)
unfolding equal_strings
equal_strings_iff a b = (
  λ e. eq_of_equal_elems a b (ground arith) (ground arith),
  λ e. rw e (rw (==_refl (length b)) (equal_elems_refl b)),
)

equal_option_iff :
    {A : Type 0} (eq : A → A → Bool)
    → ((a b : A) → (eq a b ≡ true) ↔ (a ≡ b))
    → (a b : Option A) → (equal_option eq a b ≡ true) ↔ (a ≡ b)
equal_option_iff eq h none none = (λ e. refl, λ e. refl)
equal_option_iff eq h none (some b) = (λ e. cc, λ e. cc)
equal_option_iff eq h (some a) none = (λ e. cc, λ e. cc)
equal_option_iff eq h (some a) (some b) =
    (λ e. ap some ((h a b).0 e), λ e. (h a b).1 (some-injective _ _ e))

equal_bool_iff : (a b : Bool) → (equal_bool a b ≡ true) ↔ (a ≡ b)
equal_bool_iff a b = ground arith

equal_archival_iff : (a b : Archival) → (equal_archival a b ≡ true) ↔ (a ≡ b)
equal_archival_iff a b = (
  λ e. let k = eq_of_eqb a.kind b.kind (ground arith) in ground (arith, k),
  λ e. let k = eqb_refl b.kind in rw e (ground (arith, k)),
)

equal_limits_iff : (a b : SimulateLimits) → (equal_limits a b ≡ true) ↔ (a ≡ b)
equal_limits_iff a b = (λ e. ground arith, λ e. rw e (ground arith))

and_five :
    (p q r s t : Bool)
    → (p && q && r && s && t) ≡ true
    → (p ≡ true) × (q ≡ true) × (r ≡ true) × (s ≡ true) × (t ≡ true)
and_five p q r s t e = ground arith

five_and :
    (p q r s t : Bool)
    → p ≡ true
    → q ≡ true
    → r ≡ true
    → s ≡ true
    → t ≡ true
    → (p && q && r && s && t) ≡ true
five_and p q r s t a b c d e = ground arith

eq_of_fields :
    (a b : CapabilityOverrides)
    → a.archival ≡ b.archival
    → a.developer_api ≡ b.developer_api
    → a.follow_mode ≡ b.follow_mode
    → a.time_travel ≡ b.time_travel
    → a.simulate ≡ b.simulate
    → a ≡ b
eq_of_fields a b p q r s t = cc

equal_fields_iff : (a b : CapabilityOverrides) → (equal_fields a b ≡ true) ↔ (a ≡ b)
equal_fields_iff a b =
    let ia = equal_option_iff equal_archival equal_archival_iff a.archival b.archival in
    let id = equal_option_iff equal_bool equal_bool_iff a.developer_api b.developer_api in
    let iff = equal_option_iff equal_bool equal_bool_iff a.follow_mode b.follow_mode in
    let it = equal_option_iff equal_bool equal_bool_iff a.time_travel b.time_travel in
    let isim = equal_option_iff equal_limits equal_limits_iff a.simulate b.simulate in
    (
      λ e.
          let (p, q, r, s, t) = and_five _ _ _ _ _ e in
          eq_of_fields a b (ia.0 p) (id.0 q) (iff.0 r) (it.0 s) (isim.0 t),
      λ e.
          five_and _ _ _ _ _ (ia.1 (ap (λ (x : CapabilityOverrides). x.archival) e))
            (id.1 (ap (λ (x : CapabilityOverrides). x.developer_api) e))
            (iff.1 (ap (λ (x : CapabilityOverrides). x.follow_mode) e))
            (it.1 (ap (λ (x : CapabilityOverrides). x.time_travel) e))
            (isim.1 (ap (λ (x : CapabilityOverrides). x.simulate) e)),
    )

equal_overrides_iff : (a b : Option CapabilityOverrides) → (equal_overrides a b ≡ true) ↔ (a ≡ b)
unfolding equal_overrides
equal_overrides_iff = equal_option_iff equal_fields equal_fields_iff

-- What two records of the same node share; the version and the round of the update are left out.
pub record IsSame (r o : Node) : Type 0 where
  pub same_id : r.id ≡ o.id
  pub same_role : is_balancer r ≡ is_balancer o
  pub same_network : r.network ≡ o.network
  pub same_token : r.token ≡ o.token
  pub same_rank : r.tier ≡ o.tier
  pub same_addrs : gossip_addrs r.agent ≡ gossip_addrs o.agent
  pub same_key : r.agent.pub_key ≡ o.agent.pub_key
  pub same_endpoints : r.endpoints ≡ o.endpoints
  pub same_tags : r.tags ≡ o.tags
  pub same_declared : r.declared ≡ o.declared

-- `StaticEqual` holds of two records exactly when they agree in every static fact, so that a node
-- writes its record again whenever one of them changed, and only then.
pub static_equal_iff : (r o : Node) → (static_equal r o ≡ true) ↔ IsSame r o
unfolding static_equal
static_equal_iff r o = (
  λ e. record {
    same_id = eq_of_eqb _ _ (ground arith);
    same_role = ground arith;
    same_network = eq_of_eqb _ _ (ground arith);
    same_token = eq_of_eqb _ _ (ground arith);
    same_rank = eq_of_parts _ _ (ground arith);
    same_addrs = (equal_strings_iff _ _).0 (ground arith);
    same_key = eq_of_eqb _ _ (ground arith);
    same_endpoints = (equal_strings_iff _ _).0 (ground arith);
    same_tags = (equal_strings_iff _ _).0 (ground arith);
    same_declared = (equal_overrides_iff _ _).0 (ground arith);
  },
  λ s.
      let id = (eqb_iff r.id o.id).1 s.same_id in
      let network = (eqb_iff r.network o.network).1 s.same_network in
      let token = (eqb_iff r.token o.token).1 s.same_token in
      let addrs = (equal_strings_iff _ _).1 s.same_addrs in
      let key = (eqb_iff _ _).1 s.same_key in
      let endpoints = (equal_strings_iff _ _).1 s.same_endpoints in
      let tags = (equal_strings_iff _ _).1 s.same_tags in
      let declared = (equal_overrides_iff _ _).1 s.same_declared in
      ground (arith, s.same_role, s.same_rank),
)
