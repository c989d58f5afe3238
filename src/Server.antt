-- ===== src/Server.antt =====
-- cmd/ikago-server/main.go.
mod Keys
pub mod Dist
pub mod Alive
pub mod State
pub mod Identity
pub mod Outbound
pub mod Inbound
pub mod Listen
pub mod Upstream
pub mod Quiet
pub mod Invariant
pub mod Flow
pub mod Refinement
