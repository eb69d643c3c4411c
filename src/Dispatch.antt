-- ===== src/Dispatch.antt =====
-- The dispatcher plugins, percona_playback/thread_per_connection and percona_playback/thread_pool.
pub mod PerConnection
pub mod Pool
