-- ===== src/Kad.antt =====
-- src/kad.rs: the one-shot Kademlia client.
pub mod Multiaddr
pub mod Message
pub mod Request
