-- ===== src/Domain.antt =====
-- internal/domain: the pure core of the mesh.
pub mod Capabilities
pub mod Upstream
pub mod Request
pub mod Eligible
pub mod Select
pub mod Fleet
pub mod Judge
pub mod Path
pub mod Query
pub mod Classify
pub mod Effort
pub mod Plan
pub mod NodeRecord
pub mod Codec
pub mod Endpoint
