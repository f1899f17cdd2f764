-- ===== src/Peer.antt =====
-- peer/peer.go: the ends of a websocket connection.
pub mod Inbound
pub mod Calls
pub mod Cleaning
pub mod Setup
pub mod Outbound
pub mod Connection
