-- ===== src/HotpMac/Laws.antt =====
-- hotp.c: the form of an HOTP value.
use otpd.Base.{
  ℕ, zero, suc, ◌+◌, ◌/◌, ◌%◌, ◌^◌, ◌≤◌, ◌<◌, ◌≡◌, refl, subst, ◌||◌, Option, none, some, ◌==◌, ltb,
  length, get_or, take, Bytes, All, arith, [], ◌∷◌, inl, inr, Bool-cases, IsByte,
}
use otpd.Crypto.{Crypto}
use otpd.Stdio.{print_padded}
use otpd.Stdio.Laws.{All-snoc, length-snoc, IsDec}
use otpd.HotpMac.{dbc, hotp_value, hotp_mac}

print_padded_lem : (d n : ℕ) → (length (print_padded d n) ≡ d) × IsDec (print_padded d n)
unfolding print_padded
print_padded_lem zero n = (refl, tt)
print_padded_lem (suc d) n =
    let (len, digits) = print_padded_lem d (n / 10) in
    (
      omega (arith, length-snoc (print_padded d (n / 10)) (b'0' + n % 10)),
      All-snoc (λ c. (b'0' ≤ c) × (c ≤ b'9')) (print_padded d (n / 10)) _ digits
          (omega arith, omega arith),
    )

-- A value, if there is one, with `d` decimal digits.
abbrev Digits : ℕ → Option Bytes → Type 0
Digits d none = Unit
Digits d (some response) = (length response ≡ d) × IsDec response

hotp_value-Digits : (d : ℕ) (hmac : Option Bytes) → Digits d (hotp_value d hmac)
unfolding hotp_value
hotp_value-Digits d none = tt
hotp_value-Digits d (some h) = elim (Bool-cases (length h == 20)) [
  | inl full ↦ rw full (print_padded_lem d (dbc h % 10 ^ d))
  | inr short ↦ rw short tt
]

-- A value that hotp_mac() returns has d decimal digits, and d is from 6 to 9.
pub hotp_mac_digits :
    (crypto : Crypto) (counter key : Bytes) (d : ℕ) {response : Bytes}
    → hotp_mac crypto counter key d ≡ some response
    → (6 ≤ d) × (d ≤ 9) × (length response ≡ d) × IsDec response
unfolding hotp_mac
hotp_mac_digits crypto counter key d {response} e = elim (Bool-cases (ltb d 6 || ltb 9 d)) [
  | inl out ↦ absurd (cc (rw out at e))
  | inr inside ↦
      let value : hotp_value d (crypto.hmac_sha1 key (take 8 counter)) ≡ some response =
        rw inside at e in
      let shape : (length response ≡ d) × IsDec response =
        subst (Digits d) value (hotp_value-Digits d (crypto.hmac_sha1 key (take 8 counter))) in
      (ground arith, ground arith, shape.0, shape.1)
]

get_or-IsByte : (xs : Bytes) (i : ℕ) → All IsByte xs → get_or xs i 0 < 256
get_or-IsByte [] i h = omega arith
get_or-IsByte (x ∷ xs) zero h = h.0
get_or-IsByte (x ∷ xs) (suc i) h = get_or-IsByte xs i h.1

-- The dynamic binary code of octets is below 2^31, the modulus of RFC 4226.
pub dbc-lt : (hmac : Bytes) → All IsByte hmac → dbc hmac < 2 ^ 31
unfolding dbc
dbc-lt hmac bytes =
    let o = get_or hmac 19 0 % 16 in
    omega (
      arith,
      get_or-IsByte hmac (o + 1) bytes,
      get_or-IsByte hmac (o + 2) bytes,
      get_or-IsByte hmac (o + 3) bytes,
    )
