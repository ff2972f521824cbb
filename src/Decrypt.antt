-- ===== src/Decrypt.antt =====
-- otp.c, decrypt(): the xor of otppasswd keys and PINs with a repeated key.
pub mod Laws
use otpd.Base.{ℕ, suc, bit_xor, List, [], ◌∷◌, ◌==◌, if◌then◌else◌, length, get_or, Bytes}

-- The loop at key position `j`, over the octets that are left.
unfoldable pub decrypt_loop : Bytes → Bytes → ℕ → Bytes
decrypt_loop [] key j = []
decrypt_loop (d ∷ ds) key j =
    let j' = if j == length key then 0 else j in
    bit_xor d (get_or key j' 0) ∷ decrypt_loop ds key (suc j')

unfoldable pub decrypt : Bytes → Bytes → Bytes
unfolding decrypt_loop
decrypt text key = if length key == 0 then text else decrypt_loop text key 0
