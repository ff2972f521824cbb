-- ===== src/Card/Counter/Laws.antt =====
-- cardops/hotp.c: one challenge after another counts the events.
use otpd.Base.{
  ℕ, ◌+◌, ◌-◌, ◌/◌, ◌%◌, ◌^◌, ◌≤◌, ◌<◌, ◌≡◌, refl, ap, ◌++◌, drop, Bytes, arith, lt→ltb,
}
use otpd.Card.Counter.{counter_bytes, word_at, host_counter, next_counter}

high_word : (c : ℕ) (rest : Bytes) → c < 2 ^ 64 → word_at (counter_bytes c ++ rest) 0 ≡ c / 2 ^ 32
unfolding word_at counter_bytes
high_word c rest h = omega arith

low_word : (c : ℕ) (rest : Bytes) → word_at (counter_bytes c ++ rest) 4 ≡ c % 2 ^ 32
unfolding word_at counter_bytes
low_word c rest = omega arith

drop-counter_bytes : (c : ℕ) (rest : Bytes) → drop 8 (counter_bytes c ++ rest) ≡ rest
unfolding counter_bytes
drop-counter_bytes c rest = refl

module _ (c : ℕ) (rest : Bytes) (fits : c < 2 ^ 64) where
  host_counter_small : c % 2 ^ 32 < 2 ^ 31 → host_counter (counter_bytes c ++ rest) ≡ c
  unfolding host_counter
  host_counter_small small =
      rw (low_word c rest, high_word c rest fits, lt→ltb _ _ small) (omega arith)

  host_counter_large :
      2 ^ 31 ≤ c % 2 ^ 32 → host_counter (counter_bytes c ++ rest) ≡ 2 ^ 64 - 2 ^ 32 + c % 2 ^ 32
  unfolding host_counter
  host_counter_large large = rw (low_word c rest, high_word c rest fits) (ground arith)

  -- While the low word of a counter c below 2^64 is below 2^31, the challenge behind counter c is
  -- counter c + 1, and the octets behind the counter stay.
  pub next_counter_lem :
      c % 2 ^ 32 < 2 ^ 31 → next_counter (counter_bytes c ++ rest) ≡ counter_bytes (c + 1) ++ rest
  unfolding next_counter
  next_counter_lem small =
      rw (host_counter_small small, drop-counter_bytes c rest)
        (ap (λ n. counter_bytes n ++ rest) (omega arith))

  -- For a counter c below 2^64 whose low word is 2^31 or more, the next challenge is the successor
  -- of a counter with a high word of ones: the sign of the low word fills it.
  pub next_counter_sign :
      2 ^ 31 ≤ c % 2 ^ 32
      → next_counter (counter_bytes c ++ rest)
        ≡ counter_bytes ((2 ^ 64 - 2 ^ 32 + c % 2 ^ 32 + 1) % 2 ^ 64) ++ rest
  unfolding next_counter
  next_counter_sign large = rw (host_counter_large large, drop-counter_bytes c rest)
