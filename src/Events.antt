-- ===== src/Events.antt =====
-- The event bus (src/events).
pub mod Bus
pub mod Delivery
