-- ===== src/App/Identity.antt =====
-- Who a request is billed to: `Identify` and `clientKey` of internal/app/ratelimit.go. The tokens are
-- looked up by themselves, where the code looks up their hash. The addresses of `net/netip` are text, with
-- its parser as a parameter.
pub mod Hops
use algod_loadb_mesh.Base.{
  ℕ, Bool, true, false, not, Option, none, some, List, [], ◌∷◌, ◌++◌, if◌then◌else◌, is_some, Bytes,
  codes, eqb, trim_space, length, take, any,
}
use algod_loadb_mesh.App.Stats.{done}
use algod_loadb_mesh.Domain.Endpoint.{Net}

pub record Identity : Type 0 where
  pub exempt : Bool
  pub key : Bytes
  pub plan : Bytes

abbrev pub exempt_identity : Identity
exempt_identity = record { exempt = true; key = []; plan = [] }

pub record LimitToken : Type 0 where
  pub name : Bytes
  pub token : Bytes
  pub plan : Bytes

-- `netip.ParseAddr` with `Unmap` and `WithZone("")`, `Is6`, `Prefix` with `String`, and `Contains`.
pub record NetIp : Type 0 where
  pub parse : Bytes → Option Bytes
  pub is6 : Bytes → Bool
  pub prefix_of : Bytes → ℕ → Option Bytes
  pub contains : Bytes → Bytes → Bool

-- The options of the table.
pub record TableOptions : Type 0 where
  pub tokens : List LimitToken
  pub anonymous_plan : Bytes
  pub trusted_proxies : List Bytes
  pub ipv6_prefix : ℕ
  pub max_keys : ℕ

-- `RemoteAddr`, and the values of X-Forwarded-For, joined and split at the commas.
pub record Caller : Type 0 where
  pub remote_addr : Bytes
  pub hops : List Bytes

abbrev pub loopback_addr : Bytes
loopback_addr = codes "loopback"

abbrev pub ip_prefix : Bytes
ip_prefix = codes "ip:"

abbrev pub token_prefix : Bytes
token_prefix = codes "token:"

abbrev pub reversed {ℓ} : {A : Type ℓ} → List A → List A → List A
reversed done [] = done
reversed done (x ∷ xs) = reversed (x ∷ done) xs

-- `strings.HasPrefix`.
abbrev pub has_prefix : Bytes → Bytes → Bool
has_prefix s p = eqb (take (length p) s) p

module _ (n : Net) (ip : NetIp) (o : TableOptions) where
  -- `parseAddr`.
  abbrev pub host_or : Bytes → Option (Bytes × Bytes) → Bytes
  host_or s none = s
  host_or s (some (host, port)) = host

  abbrev pub parse_addr : Bytes → Option Bytes
  parse_addr s = ip.parse (host_or s (n.split_host_port s))

  -- `trusted`.
  abbrev pub is_trusted : Bytes → Bool
  is_trusted a = any (λ p. ip.contains p a) o.trusted_proxies

  -- The loop of `clientKey`, over the hops from the last on.
  abbrev pub next_hop : Bytes → Option Bytes → Bytes → Bytes
  next_hop addr none rest = addr
  next_hop addr (some hop) rest = if not (is_trusted hop) then hop else rest

  abbrev pub hop_or : Bytes → Option Bytes → Bytes
  hop_or addr none = addr
  hop_or addr (some hop) = hop

  unfoldable pub walk_hops : Bytes → List Bytes → Bytes
  walk_hops addr [] = addr
  walk_hops addr (h ∷ hs) =
      let hop = parse_addr (trim_space h) in next_hop addr hop (walk_hops (hop_or addr hop) hs)

  abbrev pub keyed : Bytes → Option Bytes → Bytes
  keyed addr none = addr
  keyed addr (some p) = p

  abbrev pub key_of_addr : Bytes → Bytes
  key_of_addr addr = if ip.is6 addr then keyed addr (ip.prefix_of addr o.ipv6_prefix) else addr

  abbrev pub client_of : Caller → Option Bytes → Bytes
  client_of c none = c.remote_addr
  client_of c (some addr) =
      key_of_addr (if is_trusted addr then walk_hops addr (reversed [] c.hops) else addr)

  -- `clientKey`.
  unfoldable pub client_key : Caller → Bytes
  client_key c = client_of c (parse_addr c.remote_addr)

  unfoldable pub find_token : Bytes → List LimitToken → Option Identity
  find_token token [] = none
  find_token token (t ∷ ts) =
      let rest = find_token token ts in
      if is_some rest
      then rest
      else if eqb t.token token
      then some (record { exempt = false; key = token_prefix ++ t.name; plan = t.plan })
      else none

  -- `Identify`; none for a request that is refused.
  unfoldable pub identify : Caller → Bytes → Option Identity
  identify c token =
      if eqb c.remote_addr loopback_addr
      then some exempt_identity
      else if not (eqb token [])
      then find_token token o.tokens
      else if eqb o.anonymous_plan []
      then none
      else some
          (record { exempt = false; key = ip_prefix ++ client_key c; plan = o.anonymous_plan })
