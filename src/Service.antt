-- ===== src/Service.antt =====
-- apps/server/src/agent-service.ts: the control plane. Ownership holds the tenant gates, Agents the
-- life of an agent and the kill switch, Mint the start of a run, Execution its course, and Requests
-- the cards that people ask for and the timelines.
pub mod Ownership
pub mod Agents
pub mod Mint
pub mod Execution
pub mod Requests
