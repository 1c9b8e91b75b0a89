-- ===== src/Io.antt =====
-- Go's io.Reader and io.Writer as the program uses them: bufio.Reader, net.Conn and yamux streams.
-- A reader is the list of the bytes that are still to come; a read past its end is an error. A
-- writer keeps what it has accepted and answers its calls by a script, which stands for the network.
pub mod Writers
use proxy_forge.Prelude.{
  ℕ, zero, suc, ◌+◌, ◌*◌, ◌/◌, ◌%◌, ◌≤◌, ◌<◌, ◌≡◌, refl, Bool, true, false, [], ◌∷◌, ◌++◌, arith,
  leb, if◌then◌else◌, length, take, drop, take-append-drop, length-take, Bytes,
}

-- The errors that the wire code tells apart.
pub data Error : Type 0 where
  eof : Error
  short_write : Error
  write_failed : Error
  invalid_length : ℕ → Error
  invalid_network : Error
  invalid_port : Error
  invalid_address : Error
  too_large : ℕ → Error
  short_buffer : Error
  invalid_terminator : Error
  dial_failed : Error
  closed : Error
  -- No Go value: a loop of the model ran out of its fuel.
  out_of_fuel : Error

pub data Result {ℓ} (A : Type ℓ) : Type ℓ where
  ok : A → Result A
  err : Error → Result A

-- A step that takes bytes off the front of the stream. After an error the stream is not read again.
abbrev pub Reader : Type 0 → Type 0
Reader A = Bytes → Result (A × Bytes)

infixl 5 ◌>>=◌ ◌>>◌
abbrev pub ◌>>=◌ : {A B : Type 0} → Reader A → (A → Reader B) → Reader B
◌>>=◌ m f s = elim (m s) [ ok (a, rest) ↦ f a rest | err e ↦ err e ]

abbrev pub ◌>>◌ : {B : Type 0} → Reader (Unit {0}) → Reader B → Reader B
m >> k = m >>= λ _. k

abbrev pub pure : {A : Type 0} → A → Reader A
pure a s = ok (a, s)

abbrev pub fail : {A : Type 0} → Error → Reader A
fail e s = err e

abbrev pub guard : Bool → Error → Reader (Unit {0})
guard true e s = ok (tt, s)
guard false e s = err e

-- io.ReadFull into a buffer of the given length.
unfoldable pub read_full : ℕ → Reader Bytes
read_full zero s = ok ([], s)
read_full (suc n) [] = err eof
read_full (suc n) (b ∷ s) = elim (read_full n s) [
  | ok (bs, rest) ↦ ok (b ∷ bs, rest)
  | err e ↦ err e
]

-- ReadByte.
unfoldable pub read_byte : Reader ℕ
read_byte [] = err eof
read_byte (b ∷ s) = ok (b, s)

-- binary.BigEndian: the two bytes of a uint16, and back.
abbrev pub put_uint16 : ℕ → Bytes
put_uint16 n = (n / 256 % 256) ∷ (n % 256) ∷ []

abbrev pub byte_of : Bytes → ℕ
byte_of (b ∷ rest) = b
byte_of [] = 0

abbrev pub uint16_of : Bytes → ℕ
uint16_of (hi ∷ lo ∷ rest) = hi * 256 + lo
uint16_of _ = 0

-- A step of a `do` block that succeeds, and one that fails.
pub >>=_ok :
    {A B : Type 0} (m : Reader A) (f : A → Reader B) (s : Bytes) {a : A} {rest : Bytes}
    → m s ≡ ok (a, rest)
    → (m >>= f) s ≡ f a rest
>>=_ok m f s e = rw (e, ◌>>=◌)

pub >>=_err :
    {A B : Type 0} (m : Reader A) (f : A → Reader B) (s : Bytes) {x : Error}
    → m s ≡ err x
    → (m >>= f) s ≡ err x
>>=_err m f s e = rw (e, ◌>>=◌)

pub >>=-ok :
    {A B : Type 0} (m : Reader A) (f : A → Reader B) (s : Bytes) (r : B × Bytes)
    → (m >>= f) s ≡ ok r
    → (a : A) × (rest : Bytes) × (m s ≡ ok (a, rest)) × (f a rest ≡ ok r)
>>=-ok {A} m f s r h = split (m s) refl h
  where
    split :
        (q : Result (A × Bytes))
        → m s ≡ q
        → (elim q [ ok (a, rest) ↦ f a rest | err e ↦ err e ]) ≡ ok r
        → (a : A) × (rest : Bytes) × (m s ≡ ok (a, rest)) × (f a rest ≡ ok r)
    split (ok (a, rest)) e p = (a, rest, e, p)
    split (err x) e p = cc

pub read_full-append : (xs rest : Bytes) → read_full (length xs) (xs ++ rest) ≡ ok (xs, rest)
unfolding read_full
read_full-append [] rest = refl
read_full-append (x ∷ xs) rest = ground (arith, read_full-append xs rest)

-- A full read in closed form: it takes the front of the stream, or fails on a shorter one.
pub read_full_lem :
    (n : ℕ) (s : Bytes)
    → read_full n s ≡ (if leb n (length s) then ok (take n s, drop n s) else err eof)
unfolding read_full
read_full_lem zero s = ground arith
read_full_lem (suc n) [] = ground arith
read_full_lem (suc n) (b ∷ s) = ground (arith, read_full_lem n s)

-- What a full read returns is the front of the stream.
pub read_full_split :
    (n : ℕ) (s bs rest : Bytes) → read_full n s ≡ ok (bs, rest) → (s ≡ bs ++ rest) × (length bs ≡ n)
read_full_split n s bs rest h =
    ground (arith, read_full_lem n s, take-append-drop n s, length-take n s)

pub read_full_front :
    (n : ℕ) (p rest : Bytes)
    → n ≤ length p
    → read_full n (p ++ rest) ≡ ok (take n p, drop n p ++ rest)
unfolding read_full
read_full_front zero p rest h = refl
read_full_front (suc n) [] rest h = absurd (omega arith)
read_full_front (suc n) (b ∷ p) rest h = ground (arith, read_full_front n p rest)

pub length-put_uint16 : (n : ℕ) → length (put_uint16 n) ≡ 2
length-put_uint16 n = refl

pub uint16_of-put : (n : ℕ) → n < 65536 → uint16_of (put_uint16 n) ≡ n
uint16_of-put n h = omega arith
