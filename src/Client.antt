-- ===== src/Client.antt =====
-- The client, src/client: its files and their segments, its local database, and its sockets.
pub mod Segment
pub mod File
pub mod Workers
pub mod LocalDatabase
pub mod Sockets
pub mod Responder
pub mod Manager
pub mod Download
pub mod FileManager
pub mod Menu
pub mod Swarm
