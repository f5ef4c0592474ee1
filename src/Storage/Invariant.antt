-- ===== src/Storage/Invariant.antt =====
-- storage/memory.py: the store stays well formed, whatever calls are made in whatever order.
mod Tidy
mod Registry
mod Queues
pub mod Run
