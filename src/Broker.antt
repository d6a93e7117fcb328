-- ===== src/Broker.antt =====
-- The Go package broker.
pub mod TopicTree
pub mod Auth
pub mod QosEngine
pub mod Session
pub mod Flapping
pub mod Wills
pub mod RateLimit
pub mod PublishProperties
