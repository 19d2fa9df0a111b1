-- ===== src/Net.antt =====
-- The network crate, unaos/crates/net/src/lib.rs: the ingress router.
pub mod Ethernet
pub mod Arp
pub mod Ipv4
pub mod Ingress
pub mod Tests
