-- ===== src/Common/Text.antt =====
-- What the program asks of texts: equality, length in bytes, and whether only white space is there.
use Prim.Native.Nat.{ℕ, ◌+◌, ◌-◌, ◌*◌, ◌^◌}
use Prim.Native.Char.{code}
use Prim.Native.String.{String, [], ◌∷◌, len}
use mathlib.Core.Bool.{Bool, true, false, ◌&&◌, ◌||◌}
use mathlib.Core.Option.{Option, none, some}
use trust_server.Common.Tests.{ltb, leb, ◌==◌, if◌then◌else◌}
use text.Mathlib.Text.{◌==◌ as text_eq}

abbrev pub str_eq : String → String → Bool
str_eq a b = text_eq a b

-- `str::len`
abbrev pub byte_len : String → ℕ
byte_len s = len s

-- `str::is_empty`
abbrev pub is_empty : String → Bool
is_empty [] = true
is_empty (c ∷ s) = false

-- Unicode's `White_Space`
unfoldable pub is_whitespace : ℕ → Bool
is_whitespace c =
    (leb 9 c && leb c 13)
    || c == 32
    || c == 0x85
    || c == 0xa0
    || c == 0x1680
    || (leb 0x2000 c && leb c 0x200a)
    || c == 0x2028
    || c == 0x2029
    || c == 0x202f
    || c == 0x205f
    || c == 0x3000

-- `s.trim().is_empty()`: nothing but white space
unfoldable pub is_blank : String → Bool
unfolding is_whitespace
is_blank [] = true
is_blank (c ∷ s) = is_whitespace (code c) && is_blank s

-- `str::strip_prefix`
unfoldable pub strip_prefix : String → String → Option String
strip_prefix [] s = some s
strip_prefix (c ∷ p) [] = none
strip_prefix (c ∷ p) (d ∷ s) =
    let rest = strip_prefix p s in if code c == code d then rest else none

abbrev pub is_digit : ℕ → Bool
is_digit c = leb 48 c && leb c 57

-- the digits of a `u32`, most significant first, with the check for overflow
unfoldable pub parse_digits : ℕ → String → Option ℕ
parse_digits acc [] = some acc
parse_digits acc (c ∷ s) =
    let next = acc * 10 + (code c - 48) in
    let rest = parse_digits next s in if is_digit (code c) && ltb next (2 ^ 32) then rest else none

abbrev pub after_plus : String → Option ℕ
after_plus [] = none
after_plus (c ∷ s) = parse_digits 0 (c ∷ s)

-- `str::parse::<u32>().ok()`
unfoldable pub parse_u32 : String → Option ℕ
unfolding parse_digits
parse_u32 [] = none
parse_u32 (c ∷ s) = if code c == 43 then after_plus s else parse_digits 0 (c ∷ s)
