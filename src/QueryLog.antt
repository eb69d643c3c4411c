-- ===== src/QueryLog.antt =====
-- The query-log input plugin, percona_playback/query_log.
pub mod Readline
pub mod Data
pub mod Scan
pub mod Order
pub mod Entries
pub mod Execute
pub mod Plugin
pub mod Replay
