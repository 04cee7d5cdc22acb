-- ===== src/Runtime/Store.antt =====
-- agent/runtime/store.py: the two stores, and the specification that both implement.
pub mod Actor
pub mod Memory
pub mod Sqlite
pub mod Contract
pub mod Agree
pub mod Instance
