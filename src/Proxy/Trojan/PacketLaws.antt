-- ===== src/Proxy/Trojan/PacketLaws.antt =====
-- The UDP frames that are written are read back, in order and in pieces of at most 8192 bytes.
use proxy_forge.Prelude.{
  ℕ, zero, suc, ◌≤◌, ◌≡◌, refl, ap, ◌∙◌, List, [], ◌∷◌, ◌++◌, map, append_assoc, append-nil, arith,
  le→leb, length, All, concat, Bytes, str_eq_refl,
}
use proxy_forge.Io.{
  Reader, ◌>>=◌, pure, read_full, put_uint16, >>=_ok, read_full-append, uint16_of-put, Result, ok,
  err,
}
use proxy_forge.Proxy.Net.{IpText}
use proxy_forge.Proxy.Trojan.AddressLaws.{canonical, read_trojan_address-append}
use proxy_forge.Proxy.Trojan.Address.{read_trojan_address, append_trojan_address}
use proxy_forge.Proxy.Trojan.Auth.{crlf}
use proxy_forge.Proxy.Trojan.Packet.{
  max_frame_payload, or_invalid_address, read_trojan_udp_packet_into, read_trojan_udp_packet,
  udp_frame, Packet,
}

module _ (net : IpText) where
  abbrev pub packet : Bytes → ℕ → Bytes → Packet
  packet host port payload = record { host = canonical net host; port = port; payload = payload }

  -- The header and the payload of a frame, behind its address.
  read_body :
      (field host : Bytes) (port : ℕ) (chunk : Bytes) (size : ℕ) (rest : Bytes)
      → length chunk ≤ max_frame_payload
      → length chunk ≤ size
      → ((more : Bytes)
          → read_trojan_address net (field ++ more) ≡ ok ((canonical net host, port), more))
      → read_trojan_udp_packet_into net size
          (field ++ ((put_uint16 (length chunk) ++ crlf) ++ (chunk ++ rest)))
        ≡ ok (packet host port chunk, rest)
  unfolding read_trojan_udp_packet_into
  read_body field host port chunk size rest fits room reads =
      let header : Bytes = put_uint16 (length chunk) ++ crlf in
      let more : Bytes = header ++ (chunk ++ rest) in
      let parsed : or_invalid_address (read_trojan_address net) (field ++ more)
          ≡ ok ((canonical net host, port), more) =
        rw (reads more, or_invalid_address) in
      >>=_ok (or_invalid_address (read_trojan_address net)) _ (field ++ more) parsed
      ∙ >>=_ok (read_full 4) _ (header ++ (chunk ++ rest)) (read_full-append header (chunk ++ rest))
      ∙ rw
          (
            uint16_of-put (length chunk) (omega arith),
            le→leb (length chunk) max_frame_payload fits,
            le→leb (length chunk) size room,
            str_eq_refl crlf,
          )
          (>>=_ok (read_full (length chunk)) _ (chunk ++ rest) (read_full-append chunk rest))

  -- A frame of a chunk that fits is read back into any buffer that is large enough.
  read-udp_frame :
      (host : Bytes) (port : ℕ) (chunk frame : Bytes)
      → length chunk ≤ max_frame_payload
      → udp_frame net host port chunk ≡ ok frame
      → (size : ℕ) (rest : Bytes) → length chunk ≤ size
      → read_trojan_udp_packet_into net size (frame ++ rest) ≡ ok (packet host port chunk, rest)
  unfolding udp_frame
  read-udp_frame host port chunk frame fits h size rest room =
      go (append_trojan_address net [] host port) refl h
    where
      go :
          (r : Result Bytes)
          → append_trojan_address net [] host port ≡ r
          → (elim r [
            | ok address ↦ ok (address ++ (put_uint16 (length chunk) ++ (crlf ++ chunk)))
            | err e ↦ err e
          ])
            ≡ ok frame
          → read_trojan_udp_packet_into net size (frame ++ rest) ≡ ok (packet host port chunk, rest)
      go (err x) e p = cc
      go (ok address) e p =
          let (field, same, reads) = read_trojan_address-append net [] host port address e in
          let shape : frame ++ rest
              ≡ field ++ ((put_uint16 (length chunk) ++ crlf) ++ (chunk ++ rest)) =
            ground
              (arith, append_assoc field (put_uint16 (length chunk) ++ (crlf ++ chunk)) rest) in
          rw shape (read_body field host port chunk size rest fits room reads)

  -- Some packets in a row, as the loop of `relayTrojanUDP` reads them.
  unfoldable pub read_packets : ℕ → Reader (List Packet)
  read_packets zero = pure []
  read_packets (suc n) = do p ← read_trojan_udp_packet net; ps ← read_packets n; pure (p ∷ ps)

  -- Bytes that are the frames of a payload: in chunks that fit, and that make the payload up.
  pub record IsFramed (host : Bytes) (port : ℕ) (payload sent : Bytes) : Type 0 where
    pub chunks : List Bytes
    pub small : All (λ c. length c ≤ max_frame_payload) chunks
    pub joined : concat chunks ≡ payload
    pub decodes :
        (rest : Bytes)
        → read_packets (length chunks) (sent ++ rest) ≡ ok (map (packet host port) chunks, rest)

  pub IsFramed-cons :
      (host : Bytes) (port : ℕ) (chunk more frame sent : Bytes)
      → length chunk ≤ max_frame_payload
      → udp_frame net host port chunk ≡ ok frame
      → IsFramed host port more sent
      → IsFramed host port (chunk ++ more) (frame ++ sent)
  unfolding read_packets read_trojan_udp_packet
  IsFramed-cons host port chunk more frame sent fits made v = record {
    chunks = chunk ∷ v.chunks;
    small = (fits, v.small);
    joined = ap (◌++◌ chunk) v.joined;
    decodes = λ rest.
        ap (read_packets (suc (length v.chunks))) (append_assoc frame sent rest)
        ∙ >>=_ok (read_trojan_udp_packet net) _ (frame ++ (sent ++ rest))
            (read-udp_frame host port chunk frame fits made max_frame_payload (sent ++ rest) fits)
        ∙ >>=_ok (read_packets (length v.chunks)) _ (sent ++ rest) (v.decodes rest);
  }

  pub IsFramed-one :
      (host : Bytes) (port : ℕ) (chunk frame : Bytes)
      → length chunk ≤ max_frame_payload
      → udp_frame net host port chunk ≡ ok frame
      → IsFramed host port chunk frame
  unfolding read_packets
  IsFramed-one host port chunk frame fits made =
      rw (append-nil chunk, append-nil frame) at
        (IsFramed-cons host port chunk [] frame [] fits made
          (record { chunks = []; small = tt; joined = refl; decodes = λ rest. refl }))
