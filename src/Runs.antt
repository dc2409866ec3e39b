-- ===== src/Runs.antt =====
-- Concrete runs of the operations.
mod Numbers
mod Addresses
mod Messages
mod Pools
mod Requests
mod Proofs
mod Bursts
mod Saves
mod Keys
mod Toys
mod Phases
mod Sockets
mod Cids
mod Resolutions
mod Stale
mod Reruns
mod Entries
mod Handshakes
