-- ===== src/Decrypt/Laws.antt =====
-- otp.c, decrypt(): it is its own inverse, and reads the key at the index modulo its length.
use otpd.Base.{
  ℕ, suc, ◌%◌, ◌≤◌, ◌<◌, ◌≡◌, refl, ap, ap₂, bit_xor, [], ◌∷◌, arith, ◌==◌, if◌then◌else◌, length,
  get_or, Bytes, bit_xor_cancel, Bool-cases, inl, inr, ==→eq, sym,
}
use native.Mathlib.Nat.{mod_self, mod-eq_of_lt, suc-mod}
use otpd.Decrypt.{decrypt_loop, decrypt}

loop_cancel : (s key : Bytes) (j : ℕ) → decrypt_loop (decrypt_loop s key j) key j ≡ s
unfolding decrypt_loop
loop_cancel [] key j = refl
loop_cancel (d ∷ ds) key j =
    ap₂ ◌∷◌ (bit_xor_cancel d (get_or key (if j == length key then 0 else j) 0))
      (loop_cancel ds key (suc (if j == length key then 0 else j)))

-- Decrypting twice with one key gives the text back: what encrypted a key or PIN decrypts it.
pub decrypt-decrypt : (s key : Bytes) → decrypt (decrypt s key) key ≡ s
unfolding decrypt
decrypt-decrypt s key = elim (Bool-cases (length key == 0)) [
  | inl none ↦ rw none
  | inr some ↦ rw some (loop_cancel s key 0)
]

-- The specification: octet i is mixed with octet i mod length of the key.
abbrev pub mixed : Bytes → Bytes → ℕ → Bytes
mixed [] key i = []
mixed (d ∷ ds) key i = bit_xor d (get_or key (i % length key) 0) ∷ mixed ds key (suc i)

wrap_position : (m i j : ℕ) → 0 < m → j ≤ m → j % m ≡ i % m → (if j == m then 0 else j) ≡ i % m
wrap_position m i j pos h e = elim (Bool-cases (j == m)) [
  | inl end ↦
      rw end (omega (arith, ==→eq j m end, mod_self m, ap (λ (t : ℕ). t % m) (==→eq j m end)))
  | inr inside ↦ let small : j < m = ground arith in rw inside (omega (arith, mod-eq_of_lt small))
]

loop-eq-mixed :
    (s key : Bytes) (i j : ℕ)
    → 0 < length key
    → j ≤ length key
    → j % length key ≡ i % length key
    → decrypt_loop s key j ≡ mixed s key i
unfolding decrypt_loop
loop-eq-mixed [] key i j pos h e = refl
loop-eq-mixed (d ∷ ds) key i j pos h e = rw (wrap_position (length key) i j pos h e) (
    ap (λ r. bit_xor d (get_or key (i % length key) 0) ∷ r)
      (loop-eq-mixed ds key (suc i) (suc (i % length key)) pos (omega arith)
        (sym (suc-mod i (length key)))))

-- With a key that is not empty, octet i is mixed with octet i modulo the length of the key.
pub decrypt-eq-mixed : (s key : Bytes) → 0 < length key → decrypt s key ≡ mixed s key 0
unfolding decrypt
decrypt-eq-mixed s key pos = ground (arith, loop-eq-mixed s key 0 0)
