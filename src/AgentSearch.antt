-- ===== src/AgentSearch.antt =====
-- The search over the repository's sources, tools/agent_search: one module for each part.
pub mod Source
pub mod Objects
pub mod Service
pub mod Chunks
pub mod Index
