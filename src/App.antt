-- ===== src/App.antt =====
-- internal/app: the services around the core.
pub mod TxnPins
pub mod Stats
pub mod Account
pub mod Router
pub mod Link
pub mod Options
pub mod Directory
pub mod Monitor
pub mod Forward
pub mod Limiter
pub mod Handle
pub mod Fan
pub mod Identity
pub mod StatusBook
pub mod RegistrySync
