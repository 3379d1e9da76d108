-- ===== src/Pbx.antt =====
-- The multi-tenant PBX, cmd/pbx: the inbound dial plan.
pub mod Dialplan
pub mod Calls
pub mod Forks
pub mod Bridges
mod Examples
mod MenuExamples
