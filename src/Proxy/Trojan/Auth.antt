-- ===== src/Proxy/Trojan/Auth.antt =====
-- Trojan's authentication line: 56 hexadecimal digits of a SHA-224 digest, and CR LF.
use proxy_forge.Prelude.{
  ℕ, ◌+◌, ◌-◌, ◌*◌, Bool, false, ◌&&◌, ◌||◌, Option, none, some, [], ◌∷◌, ◌++◌, leb, if◌then◌else◌,
  take, drop, Bytes, codes, str_eq, trim_space, is_empty,
}
use proxy_forge.Io.{Reader, ◌>>=◌, read_full, invalid_terminator, ok, err}

-- crypto/hmac over SHA-256, crypto/sha256.Sum224 and base64.RawURLEncoding.
pub record Crypto : Type 0 where
  pub hmac_sha256 : Bytes → Bytes → Bytes
  pub sum_224 : Bytes → Bytes
  pub raw_url_base64 : Bytes → Bytes

abbrev pub digest_size : ℕ
digest_size = 28

abbrev pub auth_line_size : ℕ
auth_line_size = 58

-- The domain that separates the credential from the proxy password; it ends in a zero byte.
abbrev pub domain : Bytes
domain = codes "proxyforge/trojan/v1" ++ 0 ∷ []

unfoldable pub trojan_credential : Crypto → Bytes → Bytes → Bytes
trojan_credential c username password =
    let user = trim_space username in
    let pass = trim_space password in
    if is_empty user || is_empty pass
    then []
    else c.raw_url_base64 (c.hmac_sha256 pass (domain ++ user))

unfoldable pub trojan_auth_matches : Crypto → Bytes → Bytes → Bytes → Bool
trojan_auth_matches c got username password =
    let credential = trojan_credential c username password in
    if is_empty credential then false else str_eq (c.sum_224 credential) got

-- hex.Decode.
unfoldable pub hex_value : ℕ → Option ℕ
hex_value c =
    if leb b'0' c && leb c b'9'
    then some (c - b'0')
    else if leb b'a' c && leb c b'f'
    then some (c - b'a' + 10)
    else if leb b'A' c && leb c b'F'
    then some (c - b'A' + 10)
    else none

unfoldable pub hex_pair : Option ℕ → Option ℕ → Option Bytes → Option Bytes
hex_pair (some hi) (some lo) (some rest) = some ((hi * 16 + lo) ∷ rest)
hex_pair _ _ _ = none

unfoldable pub hex_decode : Bytes → Option Bytes
unfolding hex_pair hex_value
hex_decode [] = some []
hex_decode (h ∷ []) = none
hex_decode (h ∷ l ∷ s) = hex_pair (hex_value h) (hex_value l) (hex_decode s)

abbrev pub crlf : Bytes
crlf = 13 ∷ 10 ∷ []

-- The checks on a whole line.
unfoldable pub auth_of_line : Bytes → Option Bytes
auth_of_line line =
    if str_eq (drop (auth_line_size - 2) line) crlf
    then hex_decode (take (auth_line_size - 2) line)
    else none

-- `none` stands for a line that is refused, and the handler then reads no further.
abbrev pub or_refuse : {A : Type 0} → Option A → Reader A
or_refuse none s = err invalid_terminator
or_refuse (some a) s = ok (a, s)

unfoldable pub read_trojan_auth : Reader Bytes
read_trojan_auth = do line ← read_full auth_line_size; or_refuse (auth_of_line line)
