-- ===== src/Presets.antt =====
-- The per-molecule decks of apps/qscat-run/qscat_run/presets.py and what is resolved from them.
pub mod Decks
pub mod Table
pub mod Resolve
pub mod Segments
