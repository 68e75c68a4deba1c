-- ===== src/Base/Text.antt =====
-- Text as Rust's formatting and `str` methods give it.
use Prim.Native.Nat.{ℕ, zero, suc, ◌+◌, ◌/◌, ◌%◌}
use Prim.Native.Char.{code}
use Prim.Native.String.{String, slice, ◌++◌}
use mathlib.Core.Path.{◌≡◌, refl}
use mathlib.Core.Bool.{Bool, true, ◌&&◌, ◌||◌}
use comptrol.Base.Tests.{leb, nat_eq, if◌then◌else◌}

-- `char::is_whitespace`: the code points with the property White_Space.
pub is_whitespace : ℕ → Bool
is_whitespace c =
    (leb 9 c && leb c 13)
    || nat_eq c 32
    || nat_eq c 0x85
    || nat_eq c 0xa0
    || nat_eq c 0x1680
    || (leb 0x2000 c && leb c 0x200a)
    || nat_eq c 0x2028
    || nat_eq c 0x2029
    || nat_eq c 0x202f
    || nat_eq c 0x205f
    || nat_eq c 0x3000

-- `s.trim().is_empty()`
unfoldable pub is_blank : String → Bool
unfolding is_whitespace
is_blank String.[] = true
is_blank (String.◌∷◌ c s) = is_whitespace (code c) && is_blank s

-- `{:0width$x}` of a number below 16 ^ width
unfoldable pub hex_pad : ℕ → ℕ → String
hex_pad zero n = ""
hex_pad (suc width) n = hex_pad width (n / 16) ++ slice "0123456789abcdef" (n % 16) (n % 16 + 1)

-- `{}` of a number; `fuel` digits at least are printed, and the number itself is always enough.
decimal_digits : ℕ → ℕ → String → String
decimal_digits zero n acc = acc
decimal_digits (suc fuel) n acc =
    let digits = slice "0123456789" (n % 10) (n % 10 + 1) ++ acc in
    let rest = decimal_digits fuel (n / 10) digits in if nat_eq (n / 10) 0 then digits else rest

unfoldable pub decimal : ℕ → String
unfolding decimal_digits
decimal n = decimal_digits (suc n) n ""

decimal_1093 : decimal 1093 ≡ "1093"
unfolding decimal
decimal_1093 = refl

hex_pad_255 : hex_pad 4 255 ≡ "00ff"
unfolding hex_pad
hex_pad_255 = refl
