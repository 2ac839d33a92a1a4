-- ===== src/Sqs.antt =====
-- The SQS emulator, internal/services/aws/sqs/handler.go, over two collections of the record store.
pub mod Fields
pub mod Params
pub mod State
pub mod Response
pub mod Attributes
pub mod Messages
pub mod Batch
pub mod Queues
pub mod Delivery
pub mod Input
pub mod Handler
