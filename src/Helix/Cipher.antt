-- ===== src/Helix/Cipher.antt =====
-- helix.c: encryption and decryption with the MAC.
use otpd.Base.{
  ℕ, zero, suc, ◌==◌, Option, none, some, [], ◌++◌, ◌∷◌, if◌then◌else◌, bit_xor, length, Bytes,
}
use otpd.Word.{le_word, le_bytes, xor_bytes}
use otpd.Helix.{Scontext, Dcontext, helix_magic, helix_block, blocks}

-- The last keystream words of the MAC.
unfoldable pub mac_words : ℕ → Scontext → Dcontext → ℕ → Bytes
mac_words zero scontext dcontext left = []
mac_words (suc n) scontext dcontext left =
    let (s, next) = helix_block scontext dcontext left in
    le_bytes 4 s ++ mac_words n scontext next left

-- The MAC; `left` is the number of octets of the last partial word.
unfoldable pub mac : Scontext → Dcontext → ℕ → Bytes
mac scontext dcontext left =
    let z = dcontext.z in
    let mixed = record dcontext { z = record z { z0 = bit_xor z.z0 helix_magic } } in
    mac_words 4 scontext (blocks 8 scontext mixed left) left

-- The partial word at the end, if there is one, and the MAC.
unfoldable pub encrypt_rest : Scontext → Dcontext → Bytes → Bytes × Bytes
encrypt_rest scontext dcontext [] = ([], mac scontext dcontext 0)
encrypt_rest scontext dcontext (a ∷ p) =
    let word = le_word (a ∷ p) in
    let (s, next) = helix_block scontext dcontext word in
    let n = length (a ∷ p) in (le_bytes n (bit_xor word s), mac scontext next n)

-- The full words, then the rest.
unfoldable pub encrypt_words : Scontext → Dcontext → Bytes → Bytes × Bytes
encrypt_words scontext dcontext (a ∷ b ∷ c ∷ d ∷ p) =
    let word = le_word (a ∷ b ∷ c ∷ d ∷ []) in
    let (s, next) = helix_block scontext dcontext word in
    let (text, m) = encrypt_words scontext next p in (le_bytes 4 (bit_xor word s) ++ text, m)
encrypt_words scontext dcontext p = encrypt_rest scontext dcontext p

-- The ciphertext and the MAC, or `none` for -1.
unfoldable pub helix_encrypt : Scontext → Dcontext → Bytes → Option (Bytes × Bytes)
helix_encrypt scontext dcontext p =
    if scontext.magic == helix_magic then some (encrypt_words scontext dcontext p) else none

unfoldable pub decrypt_rest : Scontext → Dcontext → Bytes → Bytes × Bytes
decrypt_rest scontext dcontext [] = ([], mac scontext dcontext 0)
decrypt_rest scontext dcontext (a ∷ c) =
    let text = xor_bytes (a ∷ c) dcontext.z.z0 in
    let (s, next) = helix_block scontext dcontext (le_word text) in
    (text, mac scontext next (length (a ∷ c)))

unfoldable pub decrypt_words : Scontext → Dcontext → Bytes → Bytes × Bytes
decrypt_words scontext dcontext (a ∷ b ∷ c ∷ d ∷ t) =
    let word = le_word (a ∷ b ∷ c ∷ d ∷ []) in
    let (s, next) = helix_block scontext dcontext (bit_xor word dcontext.z.z0) in
    let (text, m) = decrypt_words scontext next t in (le_bytes 4 (bit_xor word s) ++ text, m)
decrypt_words scontext dcontext t = decrypt_rest scontext dcontext t

-- The plaintext and the MAC that it has, or `none` for -1.
unfoldable pub helix_decrypt : Scontext → Dcontext → Bytes → Option (Bytes × Bytes)
helix_decrypt scontext dcontext c =
    if scontext.magic == helix_magic then some (decrypt_words scontext dcontext c) else none
