-- ===== src/Tests.antt =====
-- The theorems at concrete inputs.
mod Records
mod Requests
mod Cloud
mod Queues
mod Protocols
mod Topics
