-- ===== src/Framework.antt =====
-- libs/ServiceComponent and libs/MessageBroker: what every service component is built from.
pub mod EventQueue
pub mod Message
pub mod World
pub mod StateMachine
pub mod Stated
pub mod ExecutionGroup
