-- ===== src/Card/Cryptocard/Laws.antt =====
-- cardops/cryptocard.c: the form of a response and of a challenge.
use otpd.Base.{
  ℕ, ◌/◌, ◌%◌, ◌≤◌, ◌<◌, ◌≡◌, refl, true, false, some, [], ◌∷◌, ◌++◌, ◌==◌, if◌then◌else◌, arith,
  length, get_or, drop, map, Bytes, Bool-cases, inl, inr, all_below, all_below_sound, leb, ◌&&◌,
}
use otpd.Otp.{State, has_bit, response_len}
use otpd.Cardops.{next}
use otpd.Xfunc.{x2a, x2a_cc_dec_conversion}
use otpd.Stdio.Laws.{IsDec}
use otpd.Card.Cryptocard.{decimal_digit, next_challenge, displayed}

-- The digits of a response: as many as the card's mask asks for, 7 or else 8.
pub displayed-length :
    (fm : ℕ) (a b c d e f g h : ℕ)
    → length (displayed fm (a ∷ b ∷ c ∷ d ∷ e ∷ f ∷ g ∷ h ∷ []))
      ≡ (if response_len fm == 7 then 7 else 8)
unfolding displayed x2a
displayed-length fm a b c d e f g h = elim (Bool-cases (response_len fm == 7)) [
  | inl seven ↦ rw seven refl
  | inr other ↦ elim (Bool-cases (has_bit fm 15)) [
    | inl phone ↦ rw (other, phone) refl
    | inr plain ↦ rw (other, plain) refl
  ]
]

cc_table :
    all_below 16 (λ n.
      leb b'0' (get_or x2a_cc_dec_conversion n 0) && leb (get_or x2a_cc_dec_conversion n 0) b'9')
    ≡ true
unfolding all_below
cc_table = refl

cc_digit :
    (n : ℕ)
    → n < 16
    → (b'0' ≤ get_or x2a_cc_dec_conversion n 0) × (get_or x2a_cc_dec_conversion n 0 ≤ b'9')
cc_digit n h =
    let row =
      all_below_sound 16
        (λ n.
          leb b'0' (get_or x2a_cc_dec_conversion n 0)
          && leb (get_or x2a_cc_dec_conversion n 0) b'9')
        n cc_table h in
    (ground (arith, row), ground (arith, row))

high_digit :
    (x : ℕ)
    → (b'0' ≤ get_or x2a_cc_dec_conversion (x / 16 % 16) 0)
      × (get_or x2a_cc_dec_conversion (x / 16 % 16) 0 ≤ b'9')
high_digit x = cc_digit (x / 16 % 16) (omega arith)

low_digit :
    (x : ℕ)
    → (b'0' ≤ get_or x2a_cc_dec_conversion (x % 16) 0)
      × (get_or x2a_cc_dec_conversion (x % 16) 0 ≤ b'9')
low_digit x = cc_digit (x % 16) (omega arith)

-- A decimal card without the phone display shows decimal digits only.
pub displayed-IsDec :
    (fm : ℕ) (a b c d e f g h : ℕ)
    → has_bit fm 14 ≡ true
    → has_bit fm 15 ≡ false
    → IsDec (displayed fm (a ∷ b ∷ c ∷ d ∷ e ∷ f ∷ g ∷ h ∷ []))
unfolding displayed x2a
displayed-IsDec fm a b c d e f g h decimal plain = elim (Bool-cases (response_len fm == 7)) [
  | inl seven ↦
      rw (decimal, seven)
        (
          high_digit a,
          (
            low_digit a,
            (high_digit b, (high_digit c, (low_digit c, (high_digit d, (low_digit d, tt))))),
          ),
        )
  | inr other ↦
      rw (decimal, other, plain)
        (
          high_digit a,
          (
            low_digit a,
            (
              high_digit b,
              (low_digit b, (high_digit c, (low_digit c, (high_digit d, (low_digit d, tt))))),
            ),
          ),
        )
]

decimal_digit-IsDec : (b : ℕ) → (b'0' ≤ decimal_digit b) × (decimal_digit b ≤ b'9')
unfolding decimal_digit
decimal_digit-IsDec b = (ground arith, ground arith)

-- From a MAC of 8 octets the next challenge is 8 decimal digits, in front of what the array holds
-- behind its first 8 octets.
pub next_challenge_lem :
    (state : State) (challenge : Bytes) (a b c d e f g h : ℕ)
    → (digits : Bytes) × (next_challenge state challenge (some (a ∷ b ∷ c ∷ d ∷ e ∷ f ∷ g ∷ h ∷ []))
        ≡ next (record state { clen = 8 }) (digits ++ drop 8 challenge))
      × (length digits ≡ 8)
      × IsDec digits
unfolding next_challenge
next_challenge_lem state challenge a b c d e f g h = (
  map decimal_digit (a ∷ b ∷ c ∷ d ∷ e ∷ f ∷ g ∷ h ∷ []),
  refl,
  refl,
  (
    decimal_digit-IsDec a,
    (
      decimal_digit-IsDec b,
      (
        decimal_digit-IsDec c,
        (
          decimal_digit-IsDec d,
          (
            decimal_digit-IsDec e,
            (decimal_digit-IsDec f, (decimal_digit-IsDec g, (decimal_digit-IsDec h, tt))),
          ),
        ),
      ),
    ),
  ),
)
