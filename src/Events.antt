-- ===== src/Events.antt =====
-- internal/domain/events: the in-process publisher and the bus with delivery levels (qos). A
-- handler is the subscriber's code: what its calls return is an argument.
pub mod Outcome
pub mod Publisher
pub mod Delivery
pub mod Bus
mod Tests
