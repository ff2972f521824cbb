-- ===== src/Word.antt =====
-- bitmanip.h on a little-endian machine: words of 32 bits and their octets.
pub mod Laws
use otpd.Base.{ℕ, zero, suc, ◌+◌, ◌-◌, ◌*◌, ◌/◌, ◌%◌, ◌^◌, List, [], ◌∷◌, bit_xor, Bytes}
use otpd.Otp.{u32}

-- The rotation to the left: the two parts share no bit.
unfoldable pub rol : ℕ → ℕ → ℕ
rol word n = u32 (word * 2 ^ n) + word / 2 ^ (32 - n)

-- LEUCHAR2HEUINT32, and LEUCHAR2HEUINT32ZE where there are fewer than 4 octets.
unfoldable pub le_word : Bytes → ℕ
le_word [] = 0
le_word (c ∷ cp) = c + 256 * le_word cp

-- HEUINT32TOLEUCHAR, and HEUINT32P2LEUCHAR of fewer than 4 octets.
unfoldable pub le_bytes : ℕ → ℕ → Bytes
le_bytes zero word = []
le_bytes (suc n) word = word % 256 ∷ le_bytes n (word / 256)

-- LEUCHARXORHEUINT32P: octet by octet.
unfoldable pub xor_bytes : Bytes → ℕ → Bytes
xor_bytes [] y = []
xor_bytes (x ∷ xp) y = bit_xor x (y % 256) ∷ xor_bytes xp (y / 256)
