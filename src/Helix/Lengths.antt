-- ===== src/Helix/Lengths.antt =====
-- helix.c: the sizes of a ciphertext and of a MAC, and the contexts that helix_setkey() makes.
use otpd.Base.{
  suc, if◌then◌else◌, none, ℕ, ◌≤◌, false, ltb, some, [], ◌∷◌, length, Bytes, ◌≡◌, refl, ap, arith,
}
use otpd.Word.{le_word, le_bytes}
use otpd.Word.Laws.{length-le_bytes}
use otpd.Helix.{Scontext, Dcontext, helix_magic, helix_block}
use otpd.Helix.Key.{helix_setkey, key_context}
use otpd.Helix.Cipher.{mac, mac_words, encrypt_rest, encrypt_words}

length-mac :
    (scontext : Scontext) (dcontext : Dcontext) (left : ℕ)
    → length (mac scontext dcontext left) ≡ 16
unfolding mac mac_words le_bytes
length-mac scontext dcontext left = refl

length-encrypt_rest :
    (scontext : Scontext) (dcontext : Dcontext) (p : Bytes)
    → (length (encrypt_rest scontext dcontext p).0 ≡ length p)
      × (length (encrypt_rest scontext dcontext p).1 ≡ 16)
unfolding encrypt_rest
length-encrypt_rest scontext dcontext [] = (refl, length-mac scontext dcontext 0)
length-encrypt_rest scontext dcontext (a ∷ p) =
    (length-le_bytes (length (a ∷ p)) _, length-mac scontext _ (length (a ∷ p)))

pub length-encrypt_words :
    (scontext : Scontext) (dcontext : Dcontext) (p : Bytes)
    → (length (encrypt_words scontext dcontext p).0 ≡ length p)
      × (length (encrypt_words scontext dcontext p).1 ≡ 16)
unfolding encrypt_words le_bytes
length-encrypt_words scontext dcontext [] = length-encrypt_rest scontext dcontext []
length-encrypt_words scontext dcontext (a ∷ []) = length-encrypt_rest scontext dcontext (a ∷ [])
length-encrypt_words scontext dcontext (a ∷ b ∷ []) =
    length-encrypt_rest scontext dcontext (a ∷ b ∷ [])
length-encrypt_words scontext dcontext (a ∷ b ∷ c ∷ []) =
    length-encrypt_rest scontext dcontext (a ∷ b ∷ c ∷ [])
length-encrypt_words scontext dcontext (a ∷ b ∷ c ∷ d ∷ p) =
    let rest =
      length-encrypt_words scontext (helix_block scontext dcontext (le_word (a ∷ b ∷ c ∷ d ∷ []))).1
        p in
    (ap (λ n. suc (suc (suc (suc n)))) rest.0, rest.1)

-- A key of at most 32 octets has a static context, with the magic that the other calls test.
pub helix_setkey_lem :
    (u : Bytes)
    → length u ≤ 32
    → (scontext : Scontext) × (helix_setkey u ≡ some scontext)
      × (scontext.magic ≡ helix_magic)
      × (scontext.l ≡ length u)
unfolding helix_setkey key_context
helix_setkey_lem u short =
    let fits : ltb 32 (length u) ≡ false = ground arith in
    (key_context u, ap (λ b. if b then none else some (key_context u)) fits, refl, refl)
