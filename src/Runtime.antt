-- ===== src/Runtime.antt =====
-- internal/runtime: the mutable runtime state. `StateMachine` is statemachine.go, `Manager` is
-- runtime.go and models.go, `Restore` is restore.go; `Store` is the adapter and the snapshot file
-- of internal/providers/runtime. The other modules are proofs.
pub mod StateMachine
pub mod Manager
pub mod Restore
pub mod Trace
pub mod Convert
pub mod Store
pub mod Reboot
pub mod Safety
pub mod Restart
pub mod Drift
pub mod Consent
pub mod Listeners
mod Tests
