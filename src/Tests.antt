-- ===== src/Tests.antt =====
-- Runs on small inputs, by component.
pub mod Rings
pub mod Nodes
pub mod Claims
pub mod Penalties
pub mod Lookups
pub mod Races
pub mod Consumers
pub mod Programs
pub mod Lives
pub mod Processes
pub mod Pools
