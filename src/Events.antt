-- ===== src/Events.antt =====
-- packages/events: the bus that carries the events of the platform, and what it emits.
pub mod Bus
pub mod Emitters
mod Tests
