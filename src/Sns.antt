-- ===== src/Sns.antt =====
-- internal/services/aws/sns/handler.go: topics, subscriptions, and the delivery of messages to
-- queues.
pub mod Fields
pub mod Params
pub mod State
pub mod Response
pub mod Topics
pub mod Subscriptions
pub mod Envelope
pub mod Publish
pub mod Handler
