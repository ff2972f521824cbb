-- ===== src/Card/Counter.antt =====
-- cardops/hotp.c: the 8 octet counter in network order.
pub mod Laws
use otpd.Base.{
  ℕ, ◌+◌, ◌-◌, ◌*◌, ◌/◌, ◌%◌, ◌^◌, Bool, [], ◌∷◌, ◌++◌, ltb, if◌then◌else◌, get_or, drop, Bytes,
}

unfoldable pub counter_bytes : ℕ → Bytes
counter_bytes c =
    (c / 2 ^ 56) % 256
    ∷ (c / 2 ^ 48) % 256
    ∷ (c / 2 ^ 40) % 256
    ∷ (c / 2 ^ 32) % 256
    ∷ (c / 2 ^ 24) % 256
    ∷ (c / 2 ^ 16) % 256
    ∷ (c / 2 ^ 8) % 256
    ∷ c % 256
    ∷ []

-- Four octets as an int's bit pattern.
unfoldable pub word_at : Bytes → ℕ → ℕ
word_at b i =
    get_or b i 0 * 2 ^ 24
    + get_or b (i + 1) 0 * 2 ^ 16
    + get_or b (i + 2) 0 * 2 ^ 8
    + get_or b (i + 3) 0

-- The two words are ints, and the low one is extended by its sign: from 2^31 on it sets every bit
-- of the high one.
unfoldable pub host_counter : Bytes → ℕ
unfolding word_at
host_counter b =
    let high = word_at b 0 in
    let low = word_at b 4 in (if ltb low (2 ^ 31) then high else 2 ^ 32 - 1) * 2 ^ 32 + low

unfoldable pub next_counter : Bytes → Bytes
unfolding host_counter
next_counter challenge = counter_bytes ((host_counter challenge + 1) % 2 ^ 64) ++ drop 8 challenge
