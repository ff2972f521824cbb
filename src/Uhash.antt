-- ===== src/Uhash.antt =====
-- uhash.c: the hash bucket of a user's name.
use native.Mathlib.Omega.{arith}
use otpd.Base.{ℕ, ◌+◌, ◌-◌, ◌^◌, ◌<◌, ◌&&◌, [], ◌∷◌, leb, if◌then◌else◌, Bytes, bit_xor, bit_xor-lt}

-- `base64[c]`: digits, capitals and small letters count up, all else is 0.
unfoldable pub base64 : ℕ → ℕ
base64 c =
    if leb b'0' c && leb c b'9'
    then c - b'0'
    else if leb b'A' c && leb c b'Z'
    then c - b'A' + 10
    else if leb b'a' c && leb c b'z'
    then c - b'a' + 36
    else 0

-- The loop over the name from a bucket.
unfoldable pub uhash_loop : ℕ → Bytes → ℕ
unfolding base64
uhash_loop bucket [] = bucket
uhash_loop bucket (u ∷ username) = uhash_loop (bit_xor bucket (base64 u)) username

unfoldable pub uhash : Bytes → ℕ
unfolding uhash_loop
uhash username = uhash_loop 0 username

base64-lt : (c : ℕ) → base64 c < 2 ^ 6
unfolding base64
base64-lt c = ground arith

uhash_loop-lt :
    (bucket : ℕ) (username : Bytes) → bucket < 2 ^ 6 → uhash_loop bucket username < 2 ^ 6
unfolding uhash_loop
uhash_loop-lt bucket [] h = h
uhash_loop-lt bucket (u ∷ username) h =
    uhash_loop-lt (bit_xor bucket (base64 u)) username
      (bit_xor-lt 6 bucket (base64 u) h (base64-lt u))

-- The bucket of every name is one of the 64, as the assertion at the end of uhash() says.
pub uhash-lt : (username : Bytes) → uhash username < 64
unfolding uhash
uhash-lt username = omega (arith, uhash_loop-lt 0 username (omega arith))
