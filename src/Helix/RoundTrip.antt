-- ===== src/Helix/RoundTrip.antt =====
-- helix.c: decryption under the same contexts undoes encryption.
use otpd.Base.{
  none, ◌==◌, true, if◌then◌else◌, ℕ, zero, suc, ◌/◌, ◌^◌, ◌<◌, some, [], ◌++◌, ◌∷◌, bit_xor,
  bit_xor_cancel, bit_xor-lt, length, Bytes, IsByte, All, ◌≡◌, refl, ap, ap₂, ◌∙◌, arith,
}
use otpd.Word.{le_word, le_bytes, xor_bytes, rol}
use otpd.Word.Laws.{
  le_word-le_bytes, le_bytes-le_word, xor_bytes-le_bytes, rol_20-lt, length-le_bytes, le_word-lt,
}
use otpd.Helix.{Scontext, Dcontext, Z, helix_magic, helix_block, blocks, rounds, add_row, xor_row}
use otpd.Helix.Key.{helix_nonce, nonce_start, le_words}
use otpd.Helix.Lengths.{length-encrypt_words}
use otpd.Helix.Cipher.{
  encrypt_rest, encrypt_words, decrypt_rest, decrypt_words, helix_encrypt, helix_decrypt,
}

-- The word z0, which is the next keystream word, fits in 32 bits.
abbrev pub IsReady : Dcontext → Type 0
IsReady dcontext = dcontext.z.z0 < 2 ^ 32

rol_9-lt : (w : ℕ) → w < 2 ^ 32 → rol w 9 < 2 ^ 32
unfolding rol
rol_9-lt w small = omega arith

rounds-lt : (p x0 x1 : ℕ) (z : Z) → (rounds p x0 x1 z).z0 < 2 ^ 32
unfolding rounds add_row xor_row
rounds-lt p x0 x1 z = rol_20-lt _ (bit_xor-lt 32 _ _ (rol_9-lt _ (omega arith)) (omega arith))

pub helix_block-IsReady :
    (scontext : Scontext) (dcontext : Dcontext) (p : ℕ)
    → IsReady (helix_block scontext dcontext p).1
unfolding helix_block
helix_block-IsReady scontext dcontext p = rounds-lt p _ _ dcontext.z

blocks-IsReady :
    (n : ℕ) (scontext : Scontext) (dcontext : Dcontext) (p : ℕ)
    → IsReady (blocks (suc n) scontext dcontext p)
unfolding blocks
blocks-IsReady zero scontext dcontext p = helix_block-IsReady scontext dcontext p
blocks-IsReady (suc n) scontext dcontext p =
    blocks-IsReady n scontext (helix_block scontext dcontext p).1 p

pub helix_nonce-IsReady : (scontext : Scontext) (n : Bytes) → IsReady (helix_nonce scontext n)
unfolding helix_nonce
helix_nonce-IsReady scontext n = blocks-IsReady 7 scontext (nonce_start scontext (le_words 4 n)) 0

rest_back :
    (scontext : Scontext) (dcontext : Dcontext) (a : ℕ) (p : Bytes)
    → All IsByte (a ∷ p)
    → decrypt_rest scontext dcontext (encrypt_rest scontext dcontext (a ∷ p)).0
      ≡ (a ∷ p, (encrypt_rest scontext dcontext (a ∷ p)).1)
unfolding encrypt_rest decrypt_rest helix_block le_bytes
rest_back scontext dcontext a p bytes =
    let word = le_word (a ∷ p) in
    let text : xor_bytes (le_bytes (length (a ∷ p)) (bit_xor word dcontext.z.z0)) dcontext.z.z0
        ≡ a ∷ p =
      xor_bytes-le_bytes (a ∷ p) dcontext.z.z0 bytes in
    rw (length-le_bytes (length p) (bit_xor word dcontext.z.z0 / 256), text) refl

keystream :
    (scontext : Scontext) (dcontext : Dcontext) (p : ℕ)
    → (helix_block scontext dcontext p).0 ≡ dcontext.z.z0
unfolding helix_block
keystream scontext dcontext p = refl

-- One word back: the ciphertext word `x` gives `word`, which is mixed in.
decrypt_step :
    (scontext : Scontext) (dcontext : Dcontext) (x word : ℕ) (t : Bytes)
    → x < 2 ^ 32
    → bit_xor x dcontext.z.z0 ≡ word
    → decrypt_words scontext dcontext (le_bytes 4 x ++ t) ≡ (
      le_bytes 4 word ++ (decrypt_words scontext (helix_block scontext dcontext word).1 t).0,
      (decrypt_words scontext (helix_block scontext dcontext word).1 t).1,
    )
unfolding decrypt_words le_bytes
decrypt_step scontext dcontext x word t small back =
    rw (le_word-le_bytes x small, back, keystream scontext dcontext word, back) refl

full_back :
    (scontext : Scontext) (dcontext : Dcontext) (a b c d : ℕ) (p : Bytes)
    → IsReady dcontext
    → All IsByte (a ∷ b ∷ c ∷ d ∷ [])
    → let next = (helix_block scontext dcontext (le_word (a ∷ b ∷ c ∷ d ∷ []))).1 in
      decrypt_words scontext next (encrypt_words scontext next p).0
        ≡ (p, (encrypt_words scontext next p).1)
      → decrypt_words scontext dcontext (encrypt_words scontext dcontext (a ∷ b ∷ c ∷ d ∷ p)).0
        ≡ (a ∷ b ∷ c ∷ d ∷ p, (encrypt_words scontext dcontext (a ∷ b ∷ c ∷ d ∷ p)).1)
unfolding encrypt_words
full_back scontext dcontext a b c d p ready bytes back =
    let four = a ∷ b ∷ c ∷ d ∷ [] in
    let word = le_word four in
    let next = (helix_block scontext dcontext word).1 in
    let text = (encrypt_words scontext next p).0 in
    let fits = bit_xor-lt 32 word dcontext.z.z0 (le_word-lt a b c d bytes) ready in
    ap (λ s. decrypt_words scontext dcontext (le_bytes 4 (bit_xor word s) ++ text))
      (keystream scontext dcontext word)
    ∙ decrypt_step scontext dcontext (bit_xor word dcontext.z.z0) word text fits
        (bit_xor_cancel word dcontext.z.z0)
    ∙ ap₂ (λ w r. (w ++ r.0, r.1)) (le_bytes-le_word four bytes) back

words_back :
    (scontext : Scontext) (dcontext : Dcontext) (p : Bytes)
    → IsReady dcontext
    → All IsByte p
    → decrypt_words scontext dcontext (encrypt_words scontext dcontext p).0
      ≡ (p, (encrypt_words scontext dcontext p).1)
unfolding encrypt_words decrypt_words encrypt_rest decrypt_rest le_bytes
words_back scontext dcontext [] ready bytes = refl
words_back scontext dcontext (a ∷ []) ready bytes = rest_back scontext dcontext a [] bytes
words_back scontext dcontext (a ∷ b ∷ []) ready bytes = rest_back scontext dcontext a (b ∷ []) bytes
words_back scontext dcontext (a ∷ b ∷ c ∷ []) ready bytes =
    rest_back scontext dcontext a (b ∷ c ∷ []) bytes
words_back scontext dcontext (a ∷ b ∷ c ∷ d ∷ p) ready (u, (v, (w, (y, rest)))) =
    full_back scontext dcontext a b c d p ready (u, (v, (w, (y, tt))))
      (words_back scontext (helix_block scontext dcontext (le_word (a ∷ b ∷ c ∷ d ∷ []))).1 p
        (helix_block-IsReady scontext dcontext (le_word (a ∷ b ∷ c ∷ d ∷ []))) rest)

-- For a static context with the right magic and any message of octets, helix_encrypt() behind
-- helix_nonce() succeeds with a ciphertext of the message's length and a MAC of 16 octets, and
-- helix_decrypt() of that ciphertext behind helix_nonce() of the same nonce gives the message and
-- the same MAC.
pub helix_decrypt-helix_encrypt :
    (scontext : Scontext) (n p : Bytes)
    → scontext.magic ≡ helix_magic
    → All IsByte p
    → (c : Bytes) × (m : Bytes) × (helix_encrypt scontext (helix_nonce scontext n) p ≡ some (c, m))
      × (length c ≡ length p)
      × (length m ≡ 16)
      × (helix_decrypt scontext (helix_nonce scontext n) c ≡ some (p, m))
unfolding helix_encrypt helix_decrypt
helix_decrypt-helix_encrypt scontext n p magic bytes =
    let dcontext = helix_nonce scontext n in
    let sealed = encrypt_words scontext dcontext p in
    let sizes = length-encrypt_words scontext dcontext p in
    let test : (scontext.magic == helix_magic) ≡ true = ap (λ m. m == helix_magic) magic in
    let ready = helix_nonce-IsReady scontext n in
    (
      sealed.0,
      sealed.1,
      ap (λ b. if b then some sealed else none) test,
      sizes.0,
      sizes.1,
      ap (λ b. if b then some (decrypt_words scontext dcontext sealed.0) else none) test
          ∙ ap some (words_back scontext dcontext p ready bytes),
    )
