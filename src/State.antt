-- ===== src/State.antt =====
-- internal/state: run records, the store that the API and the worker share, and the store in memory.
pub mod Records
pub mod Store
pub mod Spec
pub mod Memory
pub mod Rows
pub mod Mysql
