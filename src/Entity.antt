-- ===== src/Entity.antt =====
-- internal/domain/entity: the types that the services share.
pub mod Agent
pub mod AgentConfig
pub mod Decimal
pub mod IntDecimals
pub mod Order
pub mod Symbol
pub mod Position
pub mod Strategy
