-- ===== src/Config/RoundTrip.antt =====
-- The round trip of a config through config.resolved.yaml.
pub mod Blocks
pub mod Td
pub mod Loaded
pub mod Readable
pub mod Reload
