-- ===== src/Client.antt =====
-- The database clients: percona_playback/mysql_client and percona_playback/null_dbclient.
pub mod Mysql
pub mod Null
