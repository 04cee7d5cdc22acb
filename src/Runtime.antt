-- ===== src/Runtime.antt =====
-- agent/runtime: the durable queue of events per actor, its two stores, publishing and the worker.
pub mod Json
pub mod Models
pub mod World
pub mod Batch
pub mod Attempts
pub mod Receipts
pub mod ReceiptStore
pub mod Store
pub mod Publish
pub mod RuntimeStore
pub mod Queue
pub mod Worker
pub mod Termination
