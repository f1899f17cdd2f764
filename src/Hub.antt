-- ===== src/Hub.antt =====
-- The package hub: the state that packetHandler owns, and its handlers.
pub mod State
pub mod Session
pub mod Output
pub mod Regist
pub mod Relay
pub mod Logic
pub mod Handler
pub mod Answer
pub mod Intake
pub mod Peers
pub mod Store
pub mod Http
pub mod Group
pub mod Cluster
pub mod Config
pub mod Start
