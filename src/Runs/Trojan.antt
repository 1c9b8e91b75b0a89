-- ===== src/Runs/Trojan.antt =====
-- Runs of the Trojan wire formats.
use proxy_forge.Prelude.{◌≡◌, refl, ◌≢◌, some, [], ◌∷◌, ◌++◌, length, Bytes, codes, str_eq}
use proxy_forge.Io.{out_of_fuel, ok}
use proxy_forge.Io.Writers.{write_once, Writer}
use proxy_forge.Proxy.Trojan.Address.{
  append_ip, read_trojan_address, host_field, append_trojan_address,
}
use proxy_forge.Proxy.Trojan.AddressLaws.{read_trojan_address-append}
use proxy_forge.Proxy.Trojan.Packet.{udp_frame, write_frame, write_chunks, write_trojan_udp_packet}
use proxy_forge.Proxy.Trojan.PacketLaws.{IsFramed}
use proxy_forge.Proxy.Trojan.PacketStream.{read_packets-write, write_trojan_udp_packet-ne-stuck}
use proxy_forge.Runs.{localhost, net, silent}

-- Port 443 of the local host.
abbrev local_field : Bytes
local_field = 1 ∷ localhost ++ 1 ∷ 187 ∷ []

read_trojan_address-append_example :
    (field : Bytes) × (9 ∷ local_field ≡ (9 ∷ []) ++ field)
    × ((rest : Bytes)
        → read_trojan_address net (field ++ rest) ≡ ok ((codes "127.0.0.1", 443), rest))
unfolding append_trojan_address host_field append_ip str_eq
read_trojan_address-append_example =
    read_trojan_address-append net (9 ∷ []) (codes "127.0.0.1") 443 (9 ∷ local_field) refl

abbrev datagram : Bytes
datagram = codes "ping"

abbrev after : Writer
after = record { sent = local_field ++ 0 ∷ 4 ∷ 13 ∷ 10 ∷ datagram; script = [] }

read_packets-write_example :
    (sent : Bytes) × (after.sent ≡ [] ++ sent)
    × (4 ≡ length datagram)
    × IsFramed net (codes "127.0.0.1") 443 datagram sent
unfolding write_trojan_udp_packet write_chunks write_frame udp_frame append_trojan_address
    host_field append_ip write_once str_eq
read_packets-write_example =
    read_packets-write net (codes "127.0.0.1") 443 datagram silent 4 after refl

write_trojan_udp_packet-ne-stuck_example :
    (write_trojan_udp_packet net (codes "127.0.0.1") 443 datagram silent).0.1 ≢ some out_of_fuel
write_trojan_udp_packet-ne-stuck_example =
    write_trojan_udp_packet-ne-stuck net (codes "127.0.0.1") 443 datagram silent
