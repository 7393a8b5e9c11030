-- ===== src/Types.antt =====
-- The data model of apps/server/src/types.ts, in three modules: the literals, their equality and
-- the records.
pub mod Enums
pub mod Equality
pub mod Records
