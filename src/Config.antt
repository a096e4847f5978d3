-- ===== src/Config.antt =====
-- The experiment configuration of qscat-run.
pub mod Types
pub mod Load
pub mod Dump
pub mod RoundTrip
