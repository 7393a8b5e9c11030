-- ===== src/History.antt =====
-- apps/server/src/store.ts: the changes that the server makes to its store, one mutation at a time,
-- and what no sequence of them undoes.
pub mod Steps
pub mod Growth
pub mod Kept
pub mod Forever
pub mod Traces
pub mod Handlers
pub mod Calls
pub mod Runs
