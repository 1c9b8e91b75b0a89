-- ===== src/Proxy/Trojan/Address.antt =====
-- The SOCKS5-like address of a Trojan request and of each UDP frame.
use proxy_forge.Prelude.{
  ℕ, ◌%◌, not, ◌&&◌, ◌||◌, none, some, ◌∷◌, ◌++◌, ltb, ◌==◌, if◌then◌else◌, length, Bytes, is_empty,
}
use proxy_forge.Io.{
  Reader, ◌>>=◌, ◌>>◌, pure, fail, guard, read_full, put_uint16, byte_of, uint16_of, invalid_length,
  invalid_port, invalid_address, Result, ok, err,
}
use proxy_forge.Proxy.Net.{Ip, v4, v6, IpText}

-- A domain name: one length byte, which is not 0, and the name.
unfoldable pub read_domain : Reader Bytes
read_domain = do
  len ← read_full 1
  guard (ltb 0 (byte_of len)) invalid_address
  read_full (byte_of len)

unfoldable pub append_ip : Ip → Bytes
append_ip (v4 b) = 0x01 ∷ b
append_ip (v6 b) = 0x04 ∷ b

module _ (net : IpText) where
  open net use {parse_ip, ip_string}

  -- The host behind the address type, which is the first byte.
  unfoldable pub read_host : ℕ → Reader Bytes
  read_host kind =
      if kind == 0x01
      then read_full 4 >>= (λ raw. pure (ip_string raw))
      else if kind == 0x03
      then read_domain
      else if kind == 0x04
      then read_full 16 >>= (λ raw. pure (ip_string raw))
      else fail invalid_address

  -- `host, port, ok`: a result with `ok` false is the error `invalid_address`.
  unfoldable pub read_trojan_address : Reader (Bytes × ℕ)
  read_trojan_address = do
    kind ← read_full 1
    host ← read_host (byte_of kind)
    raw_port ← read_full 2
    guard (not (is_empty host) && ltb 0 (uint16_of raw_port)) invalid_address
    pure (host, uint16_of raw_port)

  -- The address type and the host, in front of the port.
  unfoldable pub host_field : Bytes → Result Bytes
  host_field host = elim (parse_ip host) [
    | some ip ↦ ok (append_ip ip)
    | none ↦
        if length host == 0 || ltb 255 (length host)
        then err (invalid_length (length host))
        else ok (0x03 ∷ (length host % 256) ∷ host)
  ]

  unfoldable pub append_trojan_address : Bytes → Bytes → ℕ → Result Bytes
  append_trojan_address dst host port =
      if port == 0 || ltb 65535 port then err invalid_port else elim (host_field host) [
        | ok field ↦ ok (dst ++ (field ++ put_uint16 port))
        | err e ↦ err e
      ]
