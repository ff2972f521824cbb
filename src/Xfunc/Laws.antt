-- ===== src/Xfunc/Laws.antt =====
-- xfunc.c: the two conversions are inverse, and which texts are refused.
use otpd.Base.{
  ℕ, zero, suc, ◌+◌, ◌*◌, ◌/◌, ◌%◌, ◌≡◌, refl, true, ◌&&◌, none, some, [], ◌∷◌, ◌<◌, arith, ◌==◌,
  length, get_or, Bytes, IsByte, All, all_below, all_below_sound, ap, ◌⊎◌, inl, inr, Bool-cases,
}
use otpd.Xfunc.{is_xdigit, nibble, a2nx, a2x, x2a, x2a_hex_conversion}

abbrev hex : ℕ → ℕ
hex n = get_or x2a_hex_conversion n 0

hex_table : all_below 16 (λ n. is_xdigit (hex n) && (nibble (hex n) == n)) ≡ true
unfolding all_below is_xdigit nibble
hex_table = refl

hex_digit : (n : ℕ) → n < 16 → (is_xdigit (hex n) && (nibble (hex n) == n)) ≡ true
hex_digit n h = all_below_sound 16 (λ n. is_xdigit (hex n) && (nibble (hex n) == n)) n hex_table h

pub is_xdigit-hex : (n : ℕ) → n < 16 → is_xdigit (get_or x2a_hex_conversion n 0) ≡ true
is_xdigit-hex n h = ground (arith, hex_digit n h)

pub nibble-hex : (n : ℕ) → n < 16 → nibble (get_or x2a_hex_conversion n 0) ≡ n
nibble-hex n h = ground (arith, hex_digit n h)

pub length-x2a : (x conversion : Bytes) → length (x2a x conversion) ≡ length x * 2
unfolding x2a
length-x2a [] conversion = refl
length-x2a (x ∷ xs) conversion = omega (arith, length-x2a xs conversion)

pub a2nx-x2a : (x : Bytes) → All IsByte x → a2nx (x2a x x2a_hex_conversion) (length x) ≡ some x
unfolding a2nx x2a
a2nx-x2a [] h = refl
a2nx-x2a (x ∷ xs) h =
    rw
      (
        is_xdigit-hex (x / 16 % 16) (omega arith),
        is_xdigit-hex (x % 16) (omega arith),
        a2nx-x2a xs h.1,
      )
      (ap (λ y. some (y ∷ xs))
        (omega
          (arith, nibble-hex (x / 16 % 16) (omega arith), nibble-hex (x % 16) (omega arith), h.0)))

-- Hexadecimal text of any octets is read back as the same octets.
pub a2x-x2a : (x : Bytes) → All IsByte x → a2x (x2a x x2a_hex_conversion) ≡ some x
unfolding a2x
a2x-x2a x h =
    let half : length (x2a x x2a_hex_conversion) / 2 ≡ length x =
      omega (arith, length-x2a x x2a_hex_conversion) in
    rw half (a2nx-x2a x h)

nibble-lt : (c : ℕ) → is_xdigit c ≡ true → nibble c < 16
unfolding is_xdigit nibble
nibble-lt c h = ground arith

-- The text begins with 2 * l hexadecimal digits.
abbrev pub Digits : Bytes → ℕ → Type 0
Digits s zero = Unit
Digits (a ∷ b ∷ s) (suc l) = (is_xdigit a ≡ true) × (is_xdigit b ≡ true) × Digits s l
Digits _ (suc l) = ⊥

abbrev pub Accepted : Bytes → ℕ → Type 0
Accepted s l = Digits s l × (x : Bytes) × (a2nx s l ≡ some x) × (length x ≡ l) × All IsByte x

-- `a2nx` accepts exactly the texts that begin with 2 * l digits, and then gives l octets.
pub a2nx-cases : (s : Bytes) (l : ℕ) → Accepted s l ⊎ (¬ (Digits s l) × (a2nx s l ≡ none))
unfolding a2nx
a2nx-cases s zero = inl (tt, [], refl, refl, tt)
a2nx-cases [] (suc l) = inr ((λ h. h), refl)
a2nx-cases (a ∷ []) (suc l) = inr ((λ h. h), refl)
a2nx-cases (a ∷ b ∷ s) (suc l) = elim (Bool-cases (is_xdigit a)) [
  | inr no_a ↦ inr ((λ h. ground arith), rw no_a)
  | inl is_a ↦ elim (Bool-cases (is_xdigit b)) [
    | inr no_b ↦ inr ((λ h. ground arith), rw (is_a, no_b))
    | inl is_b ↦ elim (a2nx-cases s l) [
      | inl (d, x, e, n, bytes) ↦ inl (
        (is_a, is_b, d),
        ((nibble a * 16) % 256 + nibble b) % 256 ∷ x,
        rw (is_a, is_b, e),
        ap suc n,
        (omega arith, bytes),
      )
      | inr (bad, e) ↦ inr ((λ h. bad h.2), rw (is_a, is_b, e))
    ]
  ]
]
