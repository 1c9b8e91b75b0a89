-- ===== src/Runs/Packets.antt =====
-- Two packets to an endpoint with reserved bytes; the second write fails.
use proxy_forge.Prelude.{
  ℕ, ◌≡◌, refl, false, Option, none, some, List, [], ◌∷◌, map, arith, ◌==◌, if◌then◌else◌, length,
  take, Bytes, codes, str_eq,
}
use proxy_forge.Prelude.Assoc.{bytes_key, lookup}
use proxy_forge.Proxy.Bind.{
  new_reserved_bind, put_reserved, mark_packet, send_packets, socket_for, send_bind, receive, Dest,
  BindError, os, Bind, arrives,
}
use proxy_forge.Proxy.Bind.Transparent.{delivered, total, IsCount, IsCounted, receive-send_bind}

abbrev peer : Dest
peer = record { text = codes "162.159.192.1:2408"; is6 = false }

abbrev bound : Bind
bound = record new_reserved_bind {
  ipv4 = some 3;
  reserved = (codes "162.159.192.1:2408", (7, 8, 9)) ∷ [];
}

abbrev packets : List Bytes
packets = (4 ∷ 0 ∷ 0 ∷ 0 ∷ 11 ∷ []) ∷ (1 ∷ 0 ∷ 0 ∷ 0 ∷ []) ∷ []

abbrev second_fails : ℕ → Option BindError
second_fails i = if i == 1 then some (os (codes "network is unreachable")) else none

abbrev buffer : Bytes
buffer = 0 ∷ 0 ∷ 0 ∷ 0 ∷ 0 ∷ 0 ∷ 0 ∷ 0 ∷ []

sends_marked :
    (send_bind second_fails (λ i. 100) (some peer) packets bound).wire
    ≡ (4 ∷ 7 ∷ 8 ∷ 9 ∷ 11 ∷ []) ∷ []
unfolding send_bind socket_for send_packets mark_packet put_reserved lookup str_eq
sends_marked = refl

receive-send_bind_example :
    let s = send_bind second_fails (λ i. 100) (some peer) packets bound in
    (map (λ q. delivered (receive (arrives q peer) 100 buffer new_reserved_bind).0) s.wire
      ≡ take (length s.wire) packets)
    × IsCount s.error (length s.wire) 2
    × IsCounted bound (length s.wire) (total s.wire) s.bind
receive-send_bind_example =
    receive-send_bind second_fails (λ i. 100) peer peer packets bound new_reserved_bind buffer 100
      (omega arith) (omega arith) ((refl, refl, refl), ((refl, refl, refl), tt))
      (omega arith, (omega arith, tt))
