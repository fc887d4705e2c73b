-- ===== src/Domain/NodeRecord.antt =====
-- What the registry says of a node: the roles and records of internal/domain/types.go. Errors are
-- named where the source words them. The tier is an int.
pub mod Equality
pub mod Validity
use algod_loadb_mesh.Base.{
  ℕ, Bool, true, false, not, ◌&&◌, ◌||◌, Option, none, some, List, [], ◌∷◌, ◌++◌, ltb, ◌==◌,
  if◌then◌else◌, differ, Bytes, codes, eqb, length, any, ℤ, pos, ltb_ℤ, eqb_ℤ,
}
use algod_loadb_mesh.Domain.Capabilities.{Archival, SimulateLimits, CapabilityOverrides}

pub record AgentInfo : Type 0 where
  pub addrs : List Bytes
  pub addr : Bytes
  pub pub_key : Bytes

-- `GossipAddrs`.
unfoldable pub gossip_addrs : AgentInfo → List Bytes
gossip_addrs a =
    if eqb a.addr []
    then a.addrs
    else if any (λ s. eqb s a.addr) a.addrs
    then a.addrs
    else a.addrs ++ (a.addr ∷ [])

abbrev pub role_node : Bytes
role_node = codes "node"

abbrev pub role_balancer : Bytes
role_balancer = codes "balancer"

-- `ParseRole`; an unknown role is none.
unfoldable pub parse_role : Bytes → Option Bytes
parse_role s =
    if eqb s [] || eqb s role_node
    then some role_node
    else if eqb s role_balancer
    then some role_balancer
    else none

-- `NodeRecord`.
pub record Node : Type 0 where
  pub id : Bytes
  pub role : Bytes
  pub network : Bytes
  pub endpoints : List Bytes
  pub token : Bytes
  pub agent : AgentInfo
  pub tier : ℤ
  pub tags : List Bytes
  pub declared : Option CapabilityOverrides
  pub version : ℤ
  pub updated_at : ℕ

pub data RecordError : Type 0 where
  empty_id id_too_long empty_network unknown_role no_endpoints no_agent_address negative_tier :
      RecordError

abbrev pub is_nil {ℓ} : {A : Type ℓ} → List A → Bool
is_nil [] = true
is_nil (x ∷ xs) = false

-- The rest of `Validate`, once the role is read.
abbrev validate_role : Node → Option Bytes → Option RecordError
validate_role r none = some unknown_role
validate_role r (some role) =
    if eqb role role_node && is_nil r.endpoints
    then some no_endpoints
    else if eqb role role_balancer && is_nil (gossip_addrs r.agent)
    then some no_agent_address
    else if ltb_ℤ r.tier (pos 0)
    then some negative_tier
    else none

-- `Validate`; none is no error.
unfoldable pub validate : Node → Option RecordError
validate r =
    if eqb r.id []
    then some empty_id
    else if ltb 48 (length r.id)
    then some id_too_long
    else if eqb r.network []
    then some empty_network
    else validate_role r (parse_role r.role)

unfoldable pub is_balancer : Node → Bool
is_balancer r = eqb r.role role_balancer

-- `equalStrings`, with its test of the lengths first.
abbrev pub equal_elems : List Bytes → List Bytes → Bool
equal_elems [] bs = true
equal_elems (a ∷ rest) [] = true
equal_elems (a ∷ rest) (b ∷ bs) = if not (eqb a b) then false else equal_elems rest bs

unfoldable pub equal_strings : List Bytes → List Bytes → Bool
equal_strings a b = if not (length a == length b) then false else equal_elems a b

-- Two pointers that are both nil, or both set to equal values.
abbrev pub equal_option {ℓ} : {A : Type ℓ} → (A → A → Bool) → Option A → Option A → Bool
equal_option eq none none = true
equal_option eq none (some b) = false
equal_option eq (some a) none = false
equal_option eq (some a) (some b) = eq a b

abbrev pub equal_archival : Archival → Archival → Bool
equal_archival a b = eqb a.kind b.kind && (a.n == b.n)

abbrev pub equal_bool : Bool → Bool → Bool
equal_bool a b = not (differ a b)

abbrev pub equal_limits : SimulateLimits → SimulateLimits → Bool
equal_limits a b =
    (a.max_txn_groups == b.max_txn_groups)
    && (a.max_rounds == b.max_rounds)
    && (a.max_extra_opcode_budget == b.max_extra_opcode_budget)
    && (a.resource_limit_multiplier == b.resource_limit_multiplier)
    && (a.max_exec_trace_bytes == b.max_exec_trace_bytes)
    && (a.time_limit_seconds == b.time_limit_seconds)

abbrev pub equal_fields : CapabilityOverrides → CapabilityOverrides → Bool
equal_fields a b =
    equal_option equal_archival a.archival b.archival
    && equal_option equal_bool a.developer_api b.developer_api
    && equal_option equal_bool a.follow_mode b.follow_mode
    && equal_option equal_bool a.time_travel b.time_travel
    && equal_option equal_limits a.simulate b.simulate

unfoldable pub equal_overrides : Option CapabilityOverrides → Option CapabilityOverrides → Bool
equal_overrides = equal_option equal_fields

-- `StaticEqual`.
unfoldable pub static_equal : Node → Node → Bool
static_equal r o =
    if not (eqb r.id o.id)
      || differ (is_balancer r) (is_balancer o)
      || not (eqb r.network o.network)
      || not (eqb r.token o.token)
      || not (eqb_ℤ r.tier o.tier)
    then false
    else if not (equal_strings (gossip_addrs r.agent) (gossip_addrs o.agent))
        || not (eqb r.agent.pub_key o.agent.pub_key)
    then false
    else if not (equal_strings r.endpoints o.endpoints) || not (equal_strings r.tags o.tags)
    then false
    else equal_overrides r.declared o.declared
