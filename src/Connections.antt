-- ===== src/Connections.antt =====
-- main.go: the connections of clients, in TCP mode and in HTTP mode, and the counter `activeConns`
-- that they share.
pub mod Tcp
pub mod System
mod Tests
