-- ===== src/Domain/Upstream.antt =====
-- A candidate of the router: internal/domain/types.go, `Health` to `Upstream`. Scores and latencies
-- are float64, the parameter `R`.
use algod_loadb_mesh.Base.{ℕ, Bool, true, false, List, Bytes, ℤ}
use algod_loadb_mesh.Domain.Capabilities.{Capabilities}

pub data Health : Type 0 where
  starting offline online lagging synced : Health

-- `Health.Reachable`.
unfoldable pub reachable : Health → Bool
reachable online = true
reachable lagging = true
reachable synced = true
reachable starting = false
reachable offline = false

pub data UpstreamKind : Type 0 where
  local peer external : UpstreamKind

abbrev pub is_local : UpstreamKind → Bool
is_local local = true
is_local peer = false
is_local external = false

abbrev pub is_external : UpstreamKind → Bool
is_external external = true
is_external local = false
is_external peer = false

-- `latency_ms` is a map from the stat key, an association list.
pub record Stats (R : Type 0) : Type 0 where
  pub latency_ms : List (Bytes × R)
  pub error_rate : R
  pub inflight : ℕ
  pub breaker_open : Bool
  pub throttled : Bool
  pub busy : Bool

pub record Upstream (R : Type 0) : Type 0 where
  pub id : Bytes
  pub kind : UpstreamKind
  pub tier : ℤ
  pub base_url : Bytes
  pub token : Bytes
  pub health : Health
  pub last_round : ℕ
  pub caps : Capabilities
  pub draining : Bool
  pub excluded : Bool
  pub stats : Stats R
  pub source : Bytes
  pub score : R
