-- ===== src/AgentProto.antt =====
-- backend/internal/agentproto/proto.go: the handshake between controller and agent on a yamux
-- stream, and the framing of UDP datagrams. A Go string is the list of its bytes.
pub mod Packets
pub mod Boundaries
pub mod Encode
use proxy_forge.Prelude.{
  ℕ, Bool, false, not, ◌&&◌, ◌||◌, [], ◌∷◌, ltb, ◌==◌, if◌then◌else◌, length, Bytes, codes, str_eq,
}
use proxy_forge.Io.{
  Reader, ◌>>=◌, ◌>>◌, pure, fail, read_full, put_uint16, byte_of, uint16_of, invalid_length,
  invalid_network, Result, ok, err,
}
use proxy_forge.Io.Writers.{Writing, refuse, write_full}
use proxy_forge.Io.Writers

abbrev pub max_target_len : ℕ
max_target_len = 512

abbrev pub dial_ok : ℕ
dial_ok = 0x00

abbrev pub dial_fail : ℕ
dial_fail = 0x01

abbrev pub magic_0 : ℕ
magic_0 = 0x50

abbrev pub magic_1 : ℕ
magic_1 = 0x46

abbrev pub network_tcp : ℕ
network_tcp = 0x01

abbrev pub network_udp : ℕ
network_udp = 0x03

abbrev pub tcp : Bytes
tcp = codes "tcp"

abbrev pub udp : Bytes
udp = codes "udp"

-- The test that both ends make of a target's length.
abbrev pub target_len_ok : ℕ → Bool
target_len_ok n = not (n == 0 || ltb max_target_len n)

unfoldable pub write_target : Bytes → Writing (Unit {0})
write_target target =
    if target_len_ok (length target)
    then Writers.◌>>◌ (write_full (put_uint16 (length target))) (write_full target)
    else refuse (invalid_length (length target))

unfoldable pub write_network : ℕ → Bytes → Writing (Unit {0})
write_network code target =
    Writers.◌>>◌ (write_full (magic_0 ∷ magic_1 ∷ code ∷ [])) (write_target target)

unfoldable pub write_request : Bytes → Bytes → Writing (Unit {0})
write_request network target =
    if str_eq network tcp
    then write_network network_tcp target
    else if str_eq network udp
    then write_network network_udp target
    else refuse invalid_network

unfoldable pub read_target_length : ℕ → Reader Bytes
read_target_length n = if target_len_ok n then read_full n else fail (invalid_length n)

unfoldable pub read_target : Reader Bytes
read_target = do hdr ← read_full 2; read_target_length (uint16_of hdr)

-- The network of a code, as `ReadRequest` switches on it.
unfoldable pub network_of : ℕ → Result Bytes
network_of code =
    if code == network_tcp
    then ok tcp
    else if code == network_udp
    then ok udp
    else err invalid_network

abbrev pub lift : {A : Type 0} → Result A → Reader A
lift (ok a) s = ok (a, s)
lift (err e) s = err e

-- The rest of a request behind the magic.
unfoldable pub read_network : Reader (Bytes × Bytes)
read_network = do
  raw ← read_full 1
  network ← lift (network_of (byte_of raw))
  target ← read_target
  pure (network, target)

abbrev pub is_magic : Bytes → Bool
is_magic (a ∷ b ∷ rest) = a == magic_0 && b == magic_1
is_magic _ = false

pub read_legacy : ℕ → Reader (Bytes × Bytes)
read_legacy n = do target ← read_target_length n; pure (tcp, target)

unfoldable pub read_request : Reader (Bytes × Bytes)
read_request = do
  prefix ← read_full 2
  if is_magic prefix then read_network else read_legacy (uint16_of prefix)

-- The byte that the agent answers a dial with.
unfoldable pub write_status : Bool → Writing (Unit {0})
write_status dialed = write_full ((if dialed then dial_ok else dial_fail) ∷ [])

unfoldable pub read_status : Reader Bool
read_status = do b ← read_full 1; pure (byte_of b == dial_ok)
