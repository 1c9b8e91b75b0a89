-- ===== src/Proxy.antt =====
-- backend/internal/proxy: the inbound listener, its protocols, and the choice of an outbound.
pub mod Net
pub mod Trojan
pub mod Dial
pub mod Session
pub mod Socks5
pub mod Http
pub mod Manager
pub mod Batch
pub mod Activity
pub mod Usage
pub mod Endpoint
pub mod Bind
pub mod Start
pub mod Family
