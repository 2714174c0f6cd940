-- ===== src/Tracker.antt =====
-- The tracker, src/server: the clients and torrents that it knows, and its replies.
pub mod ClientInfo
pub mod Database
pub mod Responder
pub mod Threads
