-- ===== src/Proxy/Net.antt =====
-- What the proxy package uses of Go's `net`: an address that is parsed, printed and joined.
use proxy_forge.Prelude.{
  ℕ, ◌≡◌, false, Option, some, ◌++◌, if◌then◌else◌, length, All, Bytes, IsByte, codes, contains,
  is_empty,
}
use proxy_forge.Prelude.Decimal.{itoa}

-- A parsed address by its bytes: `To4` succeeds on the first kind.
pub data Ip : Type 0 where
  v4 : Bytes → Ip
  v6 : Bytes → Ip

abbrev pub ip_bytes : Ip → Bytes
ip_bytes (v4 b) = b
ip_bytes (v6 b) = b

abbrev pub IsIp : Ip → Type 0
IsIp (v4 b) = (length b ≡ 4) × All IsByte b
IsIp (v6 b) = (length b ≡ 16) × All IsByte b

-- net.ParseIP and net.IP.String.
pub record IpText : Type 0 where
  pub parse_ip : Bytes → Option Ip
  pub ip_string : Bytes → Bytes
  pub parse_ip-IsIp : (s : Bytes) (ip : Ip) → parse_ip s ≡ some ip → IsIp ip
  pub ip_string_nonempty : (b : Bytes) → is_empty (ip_string b) ≡ false

-- net.JoinHostPort: a host with a colon is put in brackets.
unfoldable pub join_host_port : Bytes → ℕ → Bytes
join_host_port host port =
    if contains host (codes ":")
    then codes "[" ++ (host ++ (codes "]:" ++ itoa port))
    else host ++ (codes ":" ++ itoa port)
