-- ===== src/Agent.antt =====
-- agent/vehicle_agent: the samples that an agent collects, and their queue.
pub mod Samples
pub mod Queue
mod Tests
