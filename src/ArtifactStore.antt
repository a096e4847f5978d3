-- ===== src/ArtifactStore.antt =====
-- apps/qscat-run/qscat_run/artifact_store.py: fetching published run artifacts.
pub mod Names
pub mod Urls
pub mod Pointer
pub mod Fetch
