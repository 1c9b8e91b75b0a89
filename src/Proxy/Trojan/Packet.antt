-- ===== src/Proxy/Trojan/Packet.antt =====
-- The UDP frames of trojan_udp.go: an address, a length, CR LF and the payload.
use proxy_forge.Prelude.{
  ℕ, zero, suc, ◌+◌, true, false, Option, none, some, [], ◌++◌, leb, length, take, drop, Bytes,
  str_eq,
}
use proxy_forge.Io.{
  Reader, ◌>>=◌, ◌>>◌, pure, guard, read_full, put_uint16, uint16_of, Error, invalid_address,
  too_large, short_buffer, invalid_terminator, out_of_fuel, Result, ok, err,
}
use proxy_forge.Io.Writers.{Writing, write_once, Writer}
use proxy_forge.Proxy.Net.{IpText}
use proxy_forge.Proxy.Trojan.Auth.{crlf}
use proxy_forge.Proxy.Trojan.Address.{read_trojan_address, append_trojan_address}

-- trojanUDPMaxFramePayload
abbrev pub max_frame_payload : ℕ
max_frame_payload = 8192

pub record Packet : Type 0 where
  pub host : Bytes
  pub port : ℕ
  pub payload : Bytes

-- A destination that does not parse is one error, whatever its cause.
abbrev pub or_invalid_address : {A : Type 0} → Reader A → Reader A
or_invalid_address m s = elim (m s) [ ok r ↦ ok r | err e ↦ err invalid_address ]

module _ (net : IpText) where
  -- `readTrojanUDPPacketInto` with a buffer of `size` bytes.
  unfoldable pub read_trojan_udp_packet_into : ℕ → Reader Packet
  read_trojan_udp_packet_into size = do
    (host, port) ← or_invalid_address (read_trojan_address net)
    header ← read_full 4
    let len = uint16_of header
    guard (leb len max_frame_payload) (too_large len)
    guard (leb len size) short_buffer
    guard (str_eq (drop 2 header) crlf) invalid_terminator
    payload ← read_full len
    pure (record { host = host; port = port; payload = payload })

  unfoldable pub read_trojan_udp_packet : Reader Packet
  read_trojan_udp_packet = read_trojan_udp_packet_into max_frame_payload

  -- The frame of one chunk.
  unfoldable pub udp_frame : Bytes → ℕ → Bytes → Result Bytes
  udp_frame host port chunk = elim (append_trojan_address net [] host port) [
    | ok address ↦ ok (address ++ (put_uint16 (length chunk) ++ (crlf ++ chunk)))
    | err e ↦ err e
  ]

  -- One round of `writeTrojanUDPPacket`: the frame of a chunk is built and written.
  unfoldable pub write_frame : Bytes → ℕ → Bytes → Writing ℕ
  write_frame host port chunk w = elim (udp_frame host port chunk) [
    | err e ↦ (err e, w)
    | ok frame ↦ write_once frame w
  ]

  -- Its loop, with the count of payload bytes sent so far. An empty payload is one frame.
  unfoldable pub write_chunks : ℕ → Bytes → ℕ → ℕ → Bytes → Writer → (ℕ × Option Error) × Writer
  write_chunks zero host port written payload w = ((written, some out_of_fuel), w)
  write_chunks (suc fuel) host port written payload w =
      let chunk = take max_frame_payload payload in
      let (r, w') = write_frame host port chunk w in
      elim r [
        | err e ↦ ((written, some e), w')
        | ok n ↦ elim (leb (length payload) (length chunk)) [
          | true ↦ ((written + length chunk, none), w')
          | false ↦
              write_chunks fuel host port (written + length chunk) (drop max_frame_payload payload)
                w'
        ]
      ]

  unfoldable pub write_trojan_udp_packet : Bytes → ℕ → Bytes → Writer → (ℕ × Option Error) × Writer
  write_trojan_udp_packet host port payload w =
      write_chunks (suc (length payload)) host port 0 payload w
