-- ===== src/Tests.antt =====
-- The theorems at concrete inputs: a fleet of a local node, a plain peer and a time-travel peer.
mod Fixtures
mod Nodes
mod Choosing
mod Watching
mod Routing
mod Sealing
mod Counting
mod Mesh
mod Sending
mod Serving
