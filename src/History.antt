-- ===== src/History.antt =====
-- backend/app/history: the state of a vehicle over time, drives and charges.
pub mod Reconstruction
pub mod Events
pub mod Queries
pub mod Table
pub mod Segments
