-- ===== src/Proxy/Socks5.antt =====
-- `handleSOCKS5`, `socks5Auth` and `socks5Reply` of mixed.go (RFC 1928 and RFC 1929).
pub mod Safety
pub mod Service
use proxy_forge.Prelude.{
  ℕ, Bool, false, ◌||◌, some, [], ◌∷◌, ◌==◌, if◌then◌else◌, drop, Bytes, codes,
}
use proxy_forge.Io.{Reader, read_full, read_byte, byte_of, uint16_of, ok, err}
use proxy_forge.Proxy.Net.{join_host_port}
use proxy_forge.Proxy.Dial.{Dialed, connected}
use proxy_forge.Proxy.Session.{
  Handler, ◌>>=◌, ◌>>◌, return, leave, require, read, write_or_leave, write_anyway, emit,
  dial_target, ProxySession, has_any, auth_fail, dial_fail, Relay, Server,
}

unfoldable pub bytes_contains : Bytes → ℕ → Bool
bytes_contains [] target = false
bytes_contains (b ∷ bs) target = b == target || bytes_contains bs target

abbrev pub zeros : Bytes
zeros = 0x00 ∷ 0x01 ∷ 0 ∷ 0 ∷ 0 ∷ 0 ∷ 0 ∷ 0 ∷ []

-- The reply with a code and the address 0.0.0.0:0.
abbrev pub reply_bytes : ℕ → Bytes
reply_bytes code = 0x05 ∷ code ∷ zeros

unfoldable pub socks5_reply : ℕ → Handler (Unit {0})
socks5_reply code = write_anyway (reply_bytes code)

-- A field behind its length byte.
unfoldable pub read_field : Reader Bytes
read_field s = elim (read_byte s) [ ok (n, rest) ↦ read_full n rest | err e ↦ err e ]

module _ (srv : Server) where
  unfoldable pub socks5_auth : Handler ProxySession
  socks5_auth = do
    ver ← read read_byte
    require (ver == 0x01)
    username ← read read_field
    password ← read read_field
    let egresses = srv.resolve username password srv.client_ip
    (if has_any egresses
        then write_anyway (0x01 ∷ 0x00 ∷ []) >> return (username, egresses)
        else emit (auth_fail username (codes "SOCKS5")) >> write_anyway (0x01 ∷ 0x01 ∷ []) >> leave)

  -- The host behind the address type; another type is answered by reply 8.
  unfoldable pub read_socks5_host : ℕ → Handler Bytes
  read_socks5_host atyp =
      if atyp == 0x01
      then read (read_full 4) >>= (λ raw. return (srv.net.ip_string raw))
      else if atyp == 0x03
      then read read_field
      else if atyp == 0x04
      then read (read_full 16) >>= (λ raw. return (srv.net.ip_string raw))
      else socks5_reply 0x08 >> leave

  unfoldable pub socks5_methods : Handler (Unit {0})
  socks5_methods = do
    ver ← read read_byte
    require (ver == 0x05)
    methods ← read read_field
    (if bytes_contains methods 0x02
        then write_or_leave (0x05 ∷ 0x02 ∷ [])
        else write_anyway (0x05 ∷ 0xff ∷ []) >> leave)

  -- The request: its command and its target.
  unfoldable pub socks5_request : Handler (ℕ × Bytes)
  socks5_request = do
    hdr ← read (read_full 4)
    require (byte_of hdr == 0x05)
    host ← read_socks5_host (byte_of (drop 3 hdr))
    raw_port ← read (read_full 2)
    return (byte_of (drop 1 hdr), join_host_port host (uint16_of raw_port))

  -- The dial and the answer to it.
  unfoldable pub socks5_answer : ProxySession → Bytes → Dialed → Handler Relay
  socks5_answer (username, egresses) target (connected conn eg) = do
    write_or_leave (reply_bytes 0x00)
    λ s. (
      some (record {
        conn = conn;
        egress = eg;
        username = username;
        target = target;
        protocol = codes "SOCKS5";
        pending = s.input;
      }),
      s,
    )
  socks5_answer (username, egresses) target failure =
      emit (dial_fail username target (codes "SOCKS5")) >> socks5_reply 0x05 >> leave

  unfoldable pub socks5_connect : ProxySession → ℕ → Bytes → Handler Relay
  socks5_connect (username, egresses) cmd target =
      if cmd == 0x01
      then dial_target srv egresses target >>= (λ r. socks5_answer (username, egresses) target r)
      else socks5_reply 0x07 >> leave

  unfoldable pub handle_socks5 : Handler Relay
  handle_socks5 = do
    socks5_methods
    session ← socks5_auth
    (cmd, target) ← socks5_request
    socks5_connect session cmd target
