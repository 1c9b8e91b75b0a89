-- ===== src/Prelude/Decimal.antt =====
-- strconv.Itoa and strconv.Atoi over bytes.
use proxy_forge.Prelude.Tests.{ltb, leb, ◌==◌, if◌then◌else◌}
use proxy_forge.Prelude.Strings.{Bytes, codes}
use Prim.Native.Nat.{ℕ, zero, suc, ◌+◌, ◌-◌, ◌*◌, ◌/◌, ◌%◌, ◌^◌}
use mathlib.Core.Path.{◌≡◌, refl}
use mathlib.Core.Bool.{Bool, true, false, ◌&&◌}
use mathlib.Core.Option.{Option, none, some}
use mathlib.Core.List.{[], ◌∷◌}

-- The decimal digits of `n`, in front of `rest`; a number has fewer digits than its value plus one.
digits_before : ℕ → ℕ → Bytes → Bytes
digits_before zero n rest = rest
digits_before (suc fuel) n rest = elim (ltb n 10) [
  | true ↦ (b'0' + n) ∷ rest
  | false ↦ digits_before fuel (n / 10) ((b'0' + n % 10) ∷ rest)
]

unfoldable pub itoa : ℕ → Bytes
unfolding digits_before
itoa n = digits_before (suc n) n []

abbrev pub is_digit : ℕ → Bool
is_digit c = leb b'0' c && leb c b'9'

digits_value : ℕ → Bytes → Option ℕ
digits_value acc [] = some acc
digits_value acc (c ∷ s) =
    let rest = digits_value (acc * 10 + (c - b'0')) s in if is_digit c then rest else none

-- At least one digit, and nothing else.
natural : Bytes → Option ℕ
natural [] = none
natural (c ∷ s) = digits_value 0 (c ∷ s)

-- An int64: its sign, true for a minus, and its magnitude. Out of range is an error.
in_range : Bool → Option ℕ → Option (Bool × ℕ)
in_range minus none = none
in_range true (some n) = if leb n (2 ^ 63) then some (true, n) else none
in_range false (some n) = if ltb n (2 ^ 63) then some (false, n) else none

unfoldable pub atoi : Bytes → Option (Bool × ℕ)
unfolding in_range natural digits_value
atoi [] = none
atoi (c ∷ s) =
    if c == b'-'
    then in_range true (natural s)
    else if c == b'+'
    then in_range false (natural s)
    else in_range false (natural (c ∷ s))

itoa_port : itoa 65535 ≡ codes "65535"
unfolding itoa
itoa_port = refl

atoi_version : atoi (codes "+12") ≡ some (false, 12)
unfolding atoi
atoi_version = refl
