-- ===== src/Dotli.antt =====
-- example/dotli/src: the demonstration, with the browser and the network as parameters.
pub mod Persistence
pub mod Words
pub mod Session
pub mod Relay
pub mod AssetHub
pub mod WebSocket
pub mod Sleep
pub mod Contenthash
pub mod Params
pub mod Protocols
pub mod Polkadot
pub mod Pooled
pub mod Run
pub mod Entry
