-- ===== src/AgentProto/Packets.antt =====
-- PacketConn of agentproto/proto.go: one datagram to a length-prefixed frame of the stream.
use proxy_forge.Prelude.{ℕ, ◌-◌, ◌++◌, ltb, if◌then◌else◌, length, Bytes}
use proxy_forge.Io.{Reader, ◌>>=◌, pure, read_full, put_uint16, uint16_of, too_large}
use proxy_forge.Io.Writers.{Writing, return, refuse, write_full}
use proxy_forge.Io.Writers

-- `PacketConn.Read` into a buffer of the given size: what does not fit is read and dropped.
unfoldable pub packet_read : ℕ → Reader Bytes
packet_read size = do
  header ← read_full 2
  let len = uint16_of header
  let read_len = if ltb size len then size else len
  p ← read_full read_len
  _ ← read_full (len - read_len)
  pure p

-- `PacketConn.Write`.
unfoldable pub packet_write : Bytes → Writing ℕ
packet_write p =
    if ltb 65535 (length p)
    then refuse (too_large (length p))
    else Writers.◌>>◌ (write_full (put_uint16 (length p)))
        (Writers.◌>>◌ (write_full p) (return (length p)))

-- The datagrams of a stream: one frame each.
abbrev pub frame : Bytes → Bytes
frame p = put_uint16 (length p) ++ p
