-- ===== src/Registry.antt =====
-- The plugin registry (src/plugins/registry.rs): plugins, connections, devices, the action index
-- and the actions in flight.
pub mod Types
pub mod ActionIndex
pub mod State
pub mod Register
pub mod Pending
