-- ===== src/ContactCentre.antt =====
-- The contact centre, cmd/contact-centre: the registries that the handlers share.
pub mod Registry
pub mod CallLog
pub mod Transfers
pub mod Intercoms
pub mod Agents
pub mod Metrics
pub mod Handlers
mod HandlerExamples
mod Examples
mod PanelExamples
