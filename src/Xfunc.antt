-- ===== src/Xfunc.antt =====
-- xfunc.c: octets to hexadecimal text and back.
pub mod Laws
use otpd.Base.{
  ℕ, zero, suc, ◌+◌, ◌-◌, ◌*◌, ◌/◌, ◌%◌, Bool, true, false, ◌&&◌, ◌||◌, Option, none, some, List,
  [], ◌∷◌, leb, ltb, if◌then◌else◌, length, get_or, Bytes,
}

-- The range check of one character.
unfoldable pub is_xdigit : ℕ → Bool
is_xdigit c = (leb b'0' c && leb c b'9') || (leb b'A' c && leb c b'F') || (leb b'a' c && leb c b'f')

-- The value of a digit that passed the check.
unfoldable pub nibble : ℕ → ℕ
nibble c = let n = c - b'0' in if ltb 9 n then if ltb (b'F' - b'0') n then n - 39 else n - 7 else n

-- `a2nx(s, x, l)`: the octets written, or `none` for -1. What a call that fails has written is
-- used by no caller. A string that ends early has its NUL for a digit, which is refused.
unfoldable pub a2nx : Bytes → ℕ → Option Bytes
unfolding is_xdigit nibble
a2nx s zero = some []
a2nx (a ∷ b ∷ s) (suc l) =
    let rest = a2nx s l in
    if is_xdigit a && is_xdigit b
    then elim rest [ none ↦ none | some x ↦ some (((nibble a * 16) % 256 + nibble b) % 256 ∷ x) ]
    else none
a2nx _ (suc l) = none

unfoldable pub a2x : Bytes → Option Bytes
unfolding a2nx
a2x s = a2nx s (length s / 2)

abbrev pub x2a_hex_conversion : Bytes
x2a_hex_conversion =
    b'0' ∷ b'1' ∷ b'2' ∷ b'3' ∷ b'4' ∷ b'5' ∷ b'6' ∷ b'7' ∷ b'8' ∷ b'9' ∷ b'a' ∷ b'b' ∷ b'c' ∷ b'd'
    ∷ b'e' ∷ b'f' ∷ []

abbrev pub x2a_cc_dec_conversion : Bytes
x2a_cc_dec_conversion =
    b'0' ∷ b'1' ∷ b'2' ∷ b'3' ∷ b'4' ∷ b'5' ∷ b'6' ∷ b'7' ∷ b'8' ∷ b'9' ∷ b'0' ∷ b'1' ∷ b'2' ∷ b'3'
    ∷ b'4' ∷ b'5' ∷ []

-- `x2a(x, len, s, conversion)` over the `len` octets of `x`; the terminating NUL is not shown.
unfoldable pub x2a : Bytes → Bytes → Bytes
x2a [] conversion = []
x2a (x ∷ xs) conversion =
    get_or conversion ((x / 16) % 16) 0 ∷ get_or conversion (x % 16) 0 ∷ x2a xs conversion
