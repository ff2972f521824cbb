-- ===== src/Tests/Ciphers.antt =====
-- helix.c at a vector of the cipher's paper, and its theorems at concrete inputs.
use otpd.Base.{some, [], ◌∷◌, ◌≡◌, refl, Bytes, replicate, arith, length, All, IsByte}
use otpd.Tests.{toy_cipher}
use otpd.Helix.Key.{helix_nonce, key_context}
use otpd.Helix.Cipher.{helix_encrypt, helix_decrypt, encrypt_words, encrypt_rest, mac, mac_words}
use otpd.Helix.RoundTrip.{helix_decrypt-helix_encrypt}
use otpd.Word.{le_bytes, le_word}

-- The empty key, a nonce of zeros and ten octets of zeros.
vector :
    helix_encrypt (key_context []) (helix_nonce (key_context []) (replicate 16 0)) (replicate 10 0)
    ≡ some (
      112 ∷ 68 ∷ 201 ∷ 190 ∷ 72 ∷ 174 ∷ 137 ∷ 34 ∷ 102 ∷ 228 ∷ [],
      101 ∷ 190 ∷ 122 ∷ 96 ∷ 253 ∷ 59 ∷ 138 ∷ 94 ∷ 49 ∷ 97 ∷ 128 ∷ 128 ∷ 86 ∷ 50 ∷ 216 ∷ 16 ∷ [],
    )
unfolding helix_encrypt key_context helix_nonce encrypt_words encrypt_rest mac mac_words le_bytes
    le_word
vector = refl

abbrev message : Bytes
message = b'G' ∷ b' ' ∷ b'j' ∷ b'o' ∷ b'e' ∷ 0 ∷ []

message-IsByte : All IsByte message
message-IsByte =
    (omega arith, (omega arith, (omega arith, (omega arith, (omega arith, (omega arith, tt))))))

helix_decrypt-helix_encrypt_example :
    (c : Bytes) × (m : Bytes) × (helix_encrypt toy_cipher
        (helix_nonce toy_cipher (replicate 16 3))
        message
      ≡ some (c, m))
    × (length c ≡ length message)
    × (length m ≡ 16)
    × (helix_decrypt toy_cipher (helix_nonce toy_cipher (replicate 16 3)) c ≡ some (message, m))
helix_decrypt-helix_encrypt_example =
    helix_decrypt-helix_encrypt toy_cipher (replicate 16 3) message refl message-IsByte
