-- ===== src/Tests.antt =====
-- Concrete runs, and the theorems at concrete inputs.
mod Wire
mod Parse
mod Peer
mod Database
mod Queue
mod Intake
mod Delivery
mod Groups
mod Http
mod Chat
mod Store
mod Cluster
mod Start
mod Connection
mod Hub
mod Filelog
mod LogFile
