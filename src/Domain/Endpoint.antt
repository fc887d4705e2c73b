-- ===== src/Domain/Endpoint.antt =====
-- Addresses: internal/domain/endpoint.go, and `NormalizeAddr` of internal/domain/path.go. The parsers
-- and printers of the packages `net` and `net/url` are a parameter; an IP is a slice of bytes.
pub mod Normal
use algod_loadb_mesh.Base.{
  ap, Bool, true, false, not, ◌||◌, Option, none, some, List, [], ◌∷◌, map, if◌then◌else◌, is_some,
  Bytes, codes, eqb,
}

pub record Net : Type 0 where
  -- `net.SplitHostPort` and `net.JoinHostPort`.
  pub split_host_port : Bytes → Option (Bytes × Bytes)
  pub join_host_port : Bytes → Bytes → Bytes
  -- `net.ParseIP`, and the methods `To4`, `String` and `Equal` of an IP.
  pub parse_ip : Bytes → Option Bytes
  pub to4 : Bytes → Option Bytes
  pub ip_string : Bytes → Bytes
  pub ip_equal : Bytes → Bytes → Bool
  -- `Hostname` of what `url.Parse` reads.
  pub hostname : Bytes → Option Bytes

module _ (n : Net) where
  -- `if ip4 := ip.To4(); ip4 != nil { ip = ip4 }`.
  abbrev pub shorten : Bytes → Option Bytes → Bytes
  shorten ip none = ip
  shorten ip (some ip4) = ip4

  abbrev pub canonical : Bytes → Bytes
  canonical ip = n.ip_string (shorten ip (n.to4 ip))

  abbrev pub normal_host : Bytes → Bytes → Option Bytes → Bytes
  normal_host addr port none = addr
  normal_host addr port (some ip) = n.join_host_port (canonical ip) port

  abbrev pub normal_parts : Bytes → Option (Bytes × Bytes) → Bytes
  normal_parts addr none = addr
  normal_parts addr (some (host, port)) = normal_host addr port (n.parse_ip host)

  -- `NormalizeAddr`.
  unfoldable pub normalize_addr : Bytes → Bytes
  normalize_addr addr = normal_parts addr (n.split_host_port addr)

  abbrev pub ip_host : Option Bytes → Bytes
  ip_host none = []
  ip_host (some ip) = canonical ip

  -- The host of one endpoint; empty for what is not an IP.
  abbrev pub endpoint_host : Option Bytes → Bytes
  endpoint_host none = []
  endpoint_host (some host) = ip_host (n.parse_ip host)

  -- `EndpointHosts`.
  unfoldable pub endpoint_hosts : List Bytes → List Bytes
  endpoint_hosts endpoints = map (λ e. endpoint_host (n.hostname e)) endpoints

  -- The loop of `EndpointFor`; it ends with the shorter list.
  unfoldable pub on_host : Bytes → List Bytes → List Bytes → Option Bytes
  on_host host endpoints [] = none
  on_host host [] (h ∷ hosts) = none
  on_host host (e ∷ endpoints) (h ∷ hosts) =
      if eqb h host then some e else on_host host endpoints hosts

  abbrev pub or_else : Bytes → Option Bytes → Bytes
  or_else first none = first
  or_else first (some e) = e

  abbrev pub for_path : Bytes → List Bytes → List Bytes → Option (Bytes × Bytes) → Bytes
  for_path first endpoints hosts none = first
  for_path first endpoints hosts (some (host, port)) =
      if eqb host [] then first else or_else first (on_host host endpoints hosts)

  -- `EndpointFor`.
  unfoldable pub endpoint_for : List Bytes → List Bytes → Bytes → Bytes
  endpoint_for [] hosts path = []
  endpoint_for (e ∷ endpoints) hosts path =
      for_path e (e ∷ endpoints) hosts (n.split_host_port path)

  abbrev is_v4 : Option Bytes → Bool
  is_v4 none = true
  is_v4 (some ip) = is_some (n.to4 ip)

  abbrev same_host : Bytes → Bytes → Option Bytes → Option Bytes → Bool
  same_host ah h (some aip) (some ip) = n.ip_equal aip ip
  same_host ah h _ _ = eqb ah h

  abbrev covers_host : Bytes → Bytes → Bool
  covers_host ah h =
      if eqb ah [] || eqb ah (codes "::")
      then true
      else if eqb ah (codes "0.0.0.0")
      then is_v4 (n.parse_ip h)
      else same_host ah h (n.parse_ip ah) (n.parse_ip h)

  abbrev covers_parts : Option (Bytes × Bytes) → Option (Bytes × Bytes) → Bool
  covers_parts (some (ah, ap)) (some (h, p)) = if not (eqb p ap) then false else covers_host ah h
  covers_parts _ _ = false

  -- `AlgodCovers`.
  unfoldable pub algod_covers : Bytes → Bytes → Bool
  algod_covers algod_net addr = covers_parts (n.split_host_port algod_net) (n.split_host_port addr)
