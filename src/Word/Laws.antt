-- ===== src/Word/Laws.antt =====
-- bitmanip.h: octets and words are inverse to each other, and the xor of words is the xor of
-- their octets.
use otpd.Base.{
  ℕ, zero, suc, ◌+◌, ◌*◌, ◌/◌, ◌%◌, ◌^◌, ◌<◌, [], ◌∷◌, bit_xor, ◌≡◌, refl, ap, ap₂, ◌∙◌, Bytes,
  IsByte, All, length, arith, bit_xor_cancel, div-bit_xor, mod-bit_xor,
}
use otpd.Word.{rol, le_word, le_bytes, xor_bytes}

pub rol_20-lt : (w : ℕ) → w < 2 ^ 32 → rol w 20 < 2 ^ 32
unfolding rol
rol_20-lt w small = omega arith

pub length-le_bytes : (n w : ℕ) → length (le_bytes n w) ≡ n
unfolding le_bytes
length-le_bytes zero w = refl
length-le_bytes (suc n) w = ap suc (length-le_bytes n (w / 256))

pub le_word-lt :
    (a b c d : ℕ) → All IsByte (a ∷ b ∷ c ∷ d ∷ []) → le_word (a ∷ b ∷ c ∷ d ∷ []) < 2 ^ 32
unfolding le_word
le_word-lt a b c d bytes = omega (arith, bytes.0, bytes.1.0, bytes.1.1.0, bytes.1.1.1.0)

pub le_word-le_bytes : (w : ℕ) → w < 2 ^ 32 → le_word (le_bytes 4 w) ≡ w
unfolding le_word le_bytes
le_word-le_bytes w small = omega arith

pub le_bytes-le_word : (s : Bytes) → All IsByte s → le_bytes (length s) (le_word s) ≡ s
unfolding le_word le_bytes
le_bytes-le_word [] bytes = refl
le_bytes-le_word (a ∷ s) (byte, bytes) =
    let low : (a + 256 * le_word s) % 256 ≡ a = omega arith in
    let high : (a + 256 * le_word s) / 256 ≡ le_word s = omega arith in
    ap₂ (λ x xs. x ∷ xs) low (ap (le_bytes (length s)) high ∙ le_bytes-le_word s bytes)

pub xor_bytes-le_bytes :
    (p : Bytes) (s : ℕ)
    → All IsByte p
    → xor_bytes (le_bytes (length p) (bit_xor (le_word p) s)) s ≡ p
unfolding le_word le_bytes xor_bytes
xor_bytes-le_bytes [] s bytes = refl
xor_bytes-le_bytes (a ∷ p) s (byte, bytes) =
    let low : (a + 256 * le_word p) % 256 ≡ a = omega arith in
    let high : (a + 256 * le_word p) / 256 ≡ le_word p = omega arith in
    let first : bit_xor (bit_xor (a + 256 * le_word p) s % 256) (s % 256) ≡ a =
      rw (mod-bit_xor (a + 256 * le_word p) s, low) (bit_xor_cancel a (s % 256)) in
    let rest : bit_xor (a + 256 * le_word p) s / 256 ≡ bit_xor (le_word p) (s / 256) =
      div-bit_xor (a + 256 * le_word p) s ∙ ap (λ w. bit_xor w (s / 256)) high in
    ap₂ (λ x xs. x ∷ xs) first
      (ap (λ w. xor_bytes (le_bytes (length p) w) (s / 256)) rest
        ∙ xor_bytes-le_bytes p (s / 256) bytes)
