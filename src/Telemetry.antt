-- ===== src/Telemetry.antt =====
-- backend/app/telemetry: values, the metric registry, resolution of competing observations.
pub mod Values
pub mod Registry
pub mod Resolution
pub mod Contacts
pub mod Store
pub mod Candidates
pub mod Hooks
pub mod State
pub mod Ingest
mod Tests
