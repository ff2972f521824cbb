-- ===== src/Stdio.antt =====
-- The conversions of stdio.h that otpd calls: printf "%x" and "%0Nlu", and sscanf "%x".
pub mod Laws
use otpd.Base.{
  ℕ, zero, suc, ◌+◌, ◌-◌, ◌*◌, ◌/◌, ◌%◌, ◌^◌, Bool, true, false, ◌&&◌, ◌||◌, Option, none, some,
  List, [], ◌∷◌, ◌++◌, ◌==◌, leb, ltb, if◌then◌else◌, get_or, Bytes,
}
use otpd.Otp.{u32}
use otpd.Xfunc.{is_xdigit, nibble, x2a_hex_conversion}

-- The hexadecimal digits of `n` with no leading zero, at most `fuel` of them.
unfoldable pub hex_digits : ℕ → ℕ → Bytes
hex_digits zero n = []
hex_digits (suc fuel) n =
    if ltb n 16
    then get_or x2a_hex_conversion n 0 ∷ []
    else hex_digits fuel (n / 16) ++ get_or x2a_hex_conversion (n % 16) 0 ∷ []

-- "%" PRIx32: 8 digits hold every uint32_t.
unfoldable pub print_hex : ℕ → Bytes
unfolding hex_digits
print_hex n = hex_digits 8 n

-- "%0Nlu" of a number with at most N = `width` digits.
unfoldable pub print_padded : ℕ → ℕ → Bytes
print_padded zero n = []
print_padded (suc width) n = print_padded width (n / 10) ++ (b'0' + n % 10) ∷ []

unfoldable pub is_space : ℕ → Bool
is_space c = c == b' ' || (leb 9 c && leb c 13)

unfoldable pub skip_space : Bytes → Bytes
unfolding is_space
skip_space [] = []
skip_space (c ∷ s) = if is_space c then skip_space s else c ∷ s

-- An optional sign: whether it is a minus, and the rest.
unfoldable pub sign : Bytes → Bool × Bytes
sign [] = (false, [])
sign (c ∷ s) = if c == b'-' then (true, s) else if c == b'+' then (false, s) else (false, c ∷ s)

-- An optional "0x" or "0X".
unfoldable pub base_prefix : Bytes → Bytes
base_prefix (a ∷ b ∷ s) = if a == b'0' && (b == b'x' || b == b'X') then s else a ∷ b ∷ s
base_prefix s = s

-- The value of the digits that a text begins with, behind those that gave `acc`.
unfoldable pub scan_digits : ℕ → Bytes → ℕ
unfolding is_xdigit nibble
scan_digits acc [] = acc
scan_digits acc (c ∷ s) = if is_xdigit c then scan_digits (acc * 16 + nibble c) s else acc

unfoldable pub starts_digit : Bytes → Bool
unfolding is_xdigit
starts_digit [] = false
starts_digit (c ∷ s) = is_xdigit c

-- The value is converted as strtoul() does on 64 bits, and its low 32 bits are stored.
unfoldable pub stored : Bool → ℕ → ℕ
stored negative v =
    u32 (if leb (2 ^ 64) v then 2 ^ 64 - 1 else if negative then (2 ^ 64 - v) % 2 ^ 64 else v)

-- sscanf(s, "%" SCNx32, &x): the number stored, or `none` where it does not return 1.
unfoldable pub scan_hex : Bytes → Option ℕ
unfolding skip_space sign base_prefix starts_digit scan_digits stored
scan_hex s =
    let (negative, rest) = sign (skip_space s) in
    let number = base_prefix rest in
    if starts_digit number then some (stored negative (scan_digits 0 number)) else none
