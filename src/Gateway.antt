-- ===== src/Gateway.antt =====
-- apps/server/src/gateway.ts: the tool gateway, the first of the two locks. Context is who calls,
-- Jail the paths, Checks the guards of a call, Cards the access requests and Tools the five tools.
pub mod Context
pub mod Paths
pub mod Jail
pub mod Checks
pub mod Bodies
pub mod Cards
pub mod Tools
pub mod Flow
pub mod Pipeline
pub mod Trail
pub mod Leaks
pub mod Authentic
pub mod Outbound
pub mod Isolated
pub mod Powers
pub mod Reads
pub mod CrmReads
pub mod Confined
