-- ===== src/Base/Text/Digits.antt =====
-- Reading numbers: `str::parse` of Rust at unsigned integers.
use Prim.Native.Nat.{ℕ, ◌+◌, ◌*◌, ◌-◌}
use Prim.Native.Char.{Char, code}
use Prim.Native.String.{String}
use mathlib.Core.Bool.{Bool, true, not, ◌&&◌}
use mathlib.Core.Option.{Option, none, some}
use nasserver.Base.Tests.{ltb, leb, ◌==◌, if◌then◌else◌}
use nasserver.Base.Text.{is_empty}

-- `s.chars().all(p)`
unfoldable pub all_chars : (Char → Bool) → String → Bool
all_chars p String.[] = true
all_chars p (String.◌∷◌ c s) = p c && all_chars p s

abbrev pub is_digit : Char → Bool
is_digit c = leb b'0' (code c) && leb (code c) b'9'

-- The value of digits that follow the value `acc`.
unfoldable pub digits_value : ℕ → String → ℕ
digits_value acc String.[] = acc
digits_value acc (String.◌∷◌ c s) = digits_value (10 * acc + (code c - b'0')) s

-- Digits with a value below the bound.
unfoldable pub parse_digits : ℕ → String → Option ℕ
unfolding all_chars digits_value
parse_digits bound s =
    if not (is_empty s) && (all_chars is_digit s && ltb (digits_value 0 s) bound)
    then some (digits_value 0 s)
    else none

-- One plus sign may stand in front.
unfoldable pub parse_unsigned : ℕ → String → Option ℕ
unfolding parse_digits
parse_unsigned bound String.[] = none
parse_unsigned bound (String.◌∷◌ c s) =
    if code c == b'+' then parse_digits bound s else parse_digits bound (String.◌∷◌ c s)

-- `str::parse::<u16>`
unfoldable pub parse_u16 : String → Option ℕ
unfolding parse_unsigned
parse_u16 s = parse_unsigned 65536 s

-- `str::parse::<u64>`
unfoldable pub parse_u64 : String → Option ℕ
unfolding parse_unsigned
parse_u64 s = parse_unsigned 18446744073709551616 s
