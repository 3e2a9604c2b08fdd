-- ===== src/Peer.antt =====
-- src/peer.cpp: what the two sides do with one another once a sync has started.
pub mod Connect
pub mod Update
pub mod Progress
pub mod Choice
pub mod Offer
pub mod Transfer
pub mod Session
pub mod Process
pub mod Sync
