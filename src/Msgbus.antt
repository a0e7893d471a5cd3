-- ===== src/Msgbus.antt =====
-- The message bus library that every Go module links: src/go/msgbus.
pub mod Types
pub mod Envelope
pub mod Pusher
pub mod Subscriber
pub mod Metric
