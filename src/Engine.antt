-- ===== src/Engine.antt =====
-- internal/engine: the older engine, which the daemon runs. Its workers are steps on its state.
pub mod StateMachine
pub mod Ntp
pub mod Workers
pub mod EventBus
pub mod Sending
pub mod Delivery
pub mod Draining
pub mod Shutdown
pub mod Halting
pub mod Resuming
pub mod Closing
mod BusTests
mod Tests
