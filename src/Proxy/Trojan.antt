-- ===== src/Proxy/Trojan.antt =====
-- backend/internal/proxy/trojan.go and trojan_udp.go: the Trojan request and its UDP frames.
pub mod Auth
pub mod AuthLaws
pub mod Address
pub mod AddressLaws
pub mod Packet
pub mod PacketLaws
pub mod PacketStream
pub mod Handler
pub mod Relay
