-- ===== src/Stdio/Laws.antt =====
-- stdio.h as otpd calls it: what "%x" prints, "%x" scans back.
use otpd.Base.{
  ℕ, zero, suc, ◌+◌, ◌*◌, ◌/◌, ◌%◌, ◌^◌, ◌≤◌, ◌<◌, ◌≡◌, refl, ap, subst, lt→ltb, true, false, some,
  [], ◌∷◌, ◌++◌, ◌≢◌, inl, inr, arith, ltb, get_or, length, Bytes, All, Bool-cases, ltb→lt,
}
use native.Mathlib.Nat.{pow-suc}
use otpd.Xfunc.{is_xdigit, nibble, x2a_hex_conversion}
use otpd.Xfunc.Laws.{is_xdigit-hex, nibble-hex}
use otpd.Stdio.{
  hex_digits, print_hex, is_space, skip_space, sign, base_prefix, scan_digits, starts_digit, stored,
  scan_hex,
}

abbrev pub IsHex : Bytes → Type 0
IsHex s = All (λ c. is_xdigit c ≡ true) s

abbrev pub IsDec : Bytes → Type 0
IsDec s = All (λ c. (b'0' ≤ c) × (c ≤ b'9')) s

pub All-snoc : (P : ℕ → Type 0) (s : Bytes) (c : ℕ) → All P s → P c → All P (s ++ c ∷ [])
All-snoc P [] c h p = (p, tt)
All-snoc P (a ∷ s) c h p = (h.0, All-snoc P s c h.1 p)

pub length-snoc : (s : Bytes) (c : ℕ) → length (s ++ c ∷ []) ≡ suc (length s)
length-snoc [] c = refl
length-snoc (a ∷ s) c = ap suc (length-snoc s c)

scan_digits-snoc :
    (acc : ℕ) (s : Bytes) (c : ℕ)
    → IsHex s
    → is_xdigit c ≡ true
    → scan_digits acc (s ++ c ∷ []) ≡ scan_digits acc s * 16 + nibble c
unfolding scan_digits
scan_digits-snoc acc [] c h p = rw p
scan_digits-snoc acc (a ∷ s) c h p = rw h.0 (scan_digits-snoc (acc * 16 + nibble a) s c h.1 p)

-- A text of hexadecimal digits, at least one, that stands for the number.
record Reads (s : Bytes) (n : ℕ) : Type 0 where
  digits : IsHex s
  value : scan_digits 0 s ≡ n
  starts : starts_digit s ≡ true

Reads-one : (n : ℕ) → n < 16 → Reads (get_or x2a_hex_conversion n 0 ∷ []) n
unfolding scan_digits starts_digit
Reads-one n h = record {
  digits = (is_xdigit-hex n h, tt);
  value = rw (is_xdigit-hex n h) (omega (arith, nibble-hex n h));
  starts = is_xdigit-hex n h;
}

starts-snoc : (s : Bytes) (c : ℕ) → starts_digit s ≡ true → starts_digit (s ++ c ∷ []) ≡ true
unfolding starts_digit
starts-snoc [] c h = cc
starts-snoc (a ∷ s) c h = h

Reads-snoc :
    (s : Bytes) (m d : ℕ)
    → d < 16
    → Reads s m
    → Reads (s ++ get_or x2a_hex_conversion d 0 ∷ []) (m * 16 + d)
Reads-snoc s m d h r = record {
  digits = All-snoc (λ c. is_xdigit c ≡ true) s _ r.digits (is_xdigit-hex d h);
  value = omega (
    arith,
    scan_digits-snoc 0 s (get_or x2a_hex_conversion d 0) r.digits (is_xdigit-hex d h),
    nibble-hex d h,
    r.value,
  );
  starts = starts-snoc s _ r.starts;
}

-- With enough fuel the digits stand for the number.
hex_digits-Reads : (f n : ℕ) → n < 16 ^ suc f → Reads (hex_digits (suc f) n) n
unfolding hex_digits
hex_digits-Reads zero n h = rw (lt→ltb n 16 h) (Reads-one n h)
hex_digits-Reads (suc f) n h =
    let shorter : Reads (hex_digits (suc f) (n / 16)) (n / 16) =
      hex_digits-Reads f (n / 16) (omega (arith, pow-suc 16 (suc f))) in
    elim (Bool-cases (ltb n 16)) [
      | inl small ↦ rw small (Reads-one n (ltb→lt n 16 small))
      | inr large ↦ rw large (
          subst (Reads (hex_digits (suc f) (n / 16) ++ get_or x2a_hex_conversion (n % 16) 0 ∷ []))
            (omega arith)
            (Reads-snoc (hex_digits (suc f) (n / 16)) (n / 16) (n % 16) (omega arith) shorter))
    ]

print_hex-Reads : (n : ℕ) → n < 2 ^ 32 → Reads (print_hex n) n
unfolding print_hex
print_hex-Reads n h = hex_digits-Reads 7 n h

pub print_hex-IsHex : (n : ℕ) → n < 2 ^ 32 → IsHex (print_hex n)
print_hex-IsHex n h = (print_hex-Reads n h).digits

-- What print_hex() gives is not the empty text.
pub print_hex-ne-nil : (n : ℕ) → n < 2 ^ 32 → print_hex n ≢ []
unfolding starts_digit
print_hex-ne-nil n h e =
    let start : starts_digit [] ≡ true =
      subst (λ s. starts_digit s ≡ true) e (print_hex-Reads n h).starts in
    cc

skip_digit : (s : Bytes) → starts_digit s ≡ true → skip_space s ≡ s
unfolding skip_space starts_digit
skip_digit [] h = refl
skip_digit (c ∷ s) h = unfold is_space is_xdigit in ground arith

sign_digit : (s : Bytes) → starts_digit s ≡ true → sign s ≡ (false, s)
unfolding sign starts_digit
sign_digit [] h = refl
sign_digit (c ∷ s) h = unfold is_xdigit in ground arith

base_digits : (s : Bytes) → IsHex s → base_prefix s ≡ s
unfolding base_prefix is_xdigit
base_digits [] h = refl
base_digits (a ∷ []) h = refl
base_digits (a ∷ b ∷ s) h = let second = h.1.0 in ground arith

-- Every uint32_t that "%x" prints, "%x" scans back.
pub scan_hex-print_hex : (n : ℕ) → n < 2 ^ 32 → scan_hex (print_hex n) ≡ some n
unfolding scan_hex stored
scan_hex-print_hex n h =
    let r = print_hex-Reads n h in
    rw (skip_digit _ r.starts, sign_digit _ r.starts, base_digits _ r.digits, r.starts, r.value)
      (ground arith)
