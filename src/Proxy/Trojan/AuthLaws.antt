-- ===== src/Proxy/Trojan/AuthLaws.antt =====
-- What the authentication line accepts.
use proxy_forge.Prelude.{
  ℕ, ◌+◌, ◌-◌, ◌*◌, ◌/◌, ◌%◌, ◌<◌, ◌≡◌, refl, ◌∙◌, inl, inr, Option, none, some, [], ◌∷◌, ◌++◌,
  append_assoc, arith, ltb, if◌then◌else◌, Bool-cases, length, take, drop, All, length-append,
  length-take, take-length, drop-length, Bytes, IsByte, str_eq, str_eq_refl,
}
use proxy_forge.Io.{read_full, >>=_ok, >>=-ok, read_full-append, read_full_split, ok}
use proxy_forge.Proxy.Trojan.Auth.{
  digest_size, auth_line_size, hex_value, hex_pair, hex_decode, auth_of_line, or_refuse,
  read_trojan_auth,
}

-- The digits that a client writes.
abbrev hex_digit : ℕ → ℕ
hex_digit n = if ltb n 10 then b'0' + n else b'a' + n - 10

pub hex_encode : Bytes → Bytes
hex_encode [] = []
hex_encode (b ∷ s) = hex_digit (b / 16) ∷ hex_digit (b % 16) ∷ hex_encode s

hex_value-digit : (n : ℕ) → n < 16 → hex_value (hex_digit n) ≡ some n
unfolding hex_value
hex_value-digit n h = ground arith

hex_decode-encode : (d : Bytes) → All IsByte d → hex_decode (hex_encode d) ≡ some d
unfolding hex_encode hex_decode
hex_decode-encode [] h = refl
hex_decode-encode (b ∷ d) (hb, hd) =
    rw
      (
        hex_value-digit (b / 16) (omega arith),
        hex_value-digit (b % 16) (omega arith),
        hex_decode-encode d hd,
      )
      (ground arith)

length-hex_encode : (d : Bytes) → length (hex_encode d) ≡ 2 * length d
unfolding hex_encode
length-hex_encode [] = refl
length-hex_encode (b ∷ d) = omega (arith, length-hex_encode d)

auth_of_line-encode :
    (d : Bytes)
    → length d ≡ digest_size
    → All IsByte d
    → auth_of_line (hex_encode d ++ (13 ∷ 10 ∷ [])) ≡ some d
unfolding auth_of_line
auth_of_line-encode d h bytes =
    let size : length (hex_encode d) ≡ 56 = omega (arith, length-hex_encode d) in
    let crlf : Bytes = 13 ∷ 10 ∷ [] in
    let back : drop 56 (hex_encode d ++ crlf) ≡ crlf =
      rw size at (drop-length (hex_encode d) crlf) in
    let front : take 56 (hex_encode d ++ crlf) ≡ hex_encode d =
      rw size at (take-length (hex_encode d) crlf) in
    rw (back, front, str_eq_refl crlf) (hex_decode-encode d bytes)

-- Every digest, written in hexadecimal and ended by CR LF, is read back as it is, and what follows
-- the line stays on the stream.
pub read_trojan_auth-encode :
    (d rest : Bytes)
    → length d ≡ digest_size
    → All IsByte d
    → read_trojan_auth (hex_encode d ++ (13 ∷ 10 ∷ rest)) ≡ ok (d, rest)
unfolding read_trojan_auth
read_trojan_auth-encode d rest h bytes =
    let line : Bytes = hex_encode d ++ (13 ∷ 10 ∷ []) in
    let size : length line ≡ 58 =
      omega (arith, length-append (hex_encode d) (13 ∷ 10 ∷ []), length-hex_encode d) in
    let got : read_full 58 (line ++ rest) ≡ ok (line, rest) =
      rw size at (read_full-append line rest) in
    rw (← append_assoc (hex_encode d) (13 ∷ 10 ∷ []) rest)
      (>>=_ok (read_full 58) _ (line ++ rest) got ∙ rw (auth_of_line-encode d h bytes))

hex_value-lt : (c n : ℕ) → hex_value c ≡ some n → n < 16
unfolding hex_value
hex_value-lt c n h = ground arith

hex_pair-some :
    (a b : Option ℕ) (r : Option Bytes) (d : Bytes)
    → hex_pair a b r ≡ some d
    → (hi : ℕ) × (lo : ℕ) × (rest : Bytes) × (a ≡ some hi)
      × (b ≡ some lo)
      × (r ≡ some rest)
      × (d ≡ (hi * 16 + lo) ∷ rest)
unfolding hex_pair
hex_pair-some (some hi) (some lo) (some rest) d h = (hi, lo, rest, refl, refl, refl, ground arith)
hex_pair-some (some hi) (some lo) none d h = cc
hex_pair-some (some hi) none r d h = cc
hex_pair-some none b r d h = cc

hex_decode_shape : (s d : Bytes) → hex_decode s ≡ some d → (length s ≡ 2 * length d) × All IsByte d
unfolding hex_decode
hex_decode_shape [] d h = ground arith
hex_decode_shape (a ∷ []) d h = cc
hex_decode_shape (a ∷ b ∷ s) d h =
    let (hi, lo, rest, p, q, r, e) = hex_pair-some (hex_value a) (hex_value b) (hex_decode s) d h in
    let (size, bytes) = hex_decode_shape s rest r in
    let first : hi < 16 = hex_value-lt a hi p in
    let second : lo < 16 = hex_value-lt b lo q in rw e (omega arith, (omega arith, bytes))

or_refuse_ok :
    {A : Type 0} (o : Option A) (s : Bytes) {a : A} {rest : Bytes}
    → or_refuse o s ≡ ok (a, rest)
    → (o ≡ some a) × (s ≡ rest)
or_refuse_ok none s h = cc
or_refuse_ok (some a) s h = ground arith

auth_of_line_shape :
    (line d : Bytes)
    → length line ≡ auth_line_size
    → auth_of_line line ≡ some d
    → (length d ≡ digest_size) × All IsByte d
unfolding auth_of_line
auth_of_line_shape line d size h = elim (Bool-cases (str_eq (drop 56 line) (13 ∷ 10 ∷ []))) [
  | inl good ↦
      let (twice, bytes) = hex_decode_shape (take 56 line) d (rw good at h) in
      (omega (arith, length-take 56 line), bytes)
  | inr bad ↦ cc (rw bad at h)
]

-- Whatever line is accepted gives a digest of 28 bytes and takes 58 bytes off the stream.
pub read_trojan_auth_shape :
    (s d rest : Bytes)
    → read_trojan_auth s ≡ ok (d, rest)
    → (length d ≡ digest_size) × All IsByte d × (length s ≡ auth_line_size + length rest)
unfolding read_trojan_auth
read_trojan_auth_shape s d rest h =
    let (line, more, got, good) = >>=-ok (read_full 58) _ s (d, rest) h in
    let (whole, size) = read_full_split 58 s line more got in
    let (decoded, same) = or_refuse_ok (auth_of_line line) more good in
    let (half, bytes) = auth_of_line_shape line d size decoded in
    (half, bytes, rw (whole, same) (omega (arith, length-append line rest)))
