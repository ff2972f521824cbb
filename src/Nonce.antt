-- ===== src/Nonce.antt =====
-- nonce.c, and the sequence numbers of state.c's gsmd(): a GET takes the next nonce, and the PUT
-- that follows it the number behind.
use otpd.Base.{ℕ, zero, suc, ◌+◌, ◌-◌, ◌*◌, ◌^◌, ◌<◌, ◌≡◌, ◌≢◌, refl, arith}
use otpd.Otp.{u32}

-- `seq = -2`
abbrev pub seq_init : ℕ
seq_init = 2 ^ 32 - 2

-- The new value of `seq`, which is also returned.
unfoldable pub nonce32 : ℕ → ℕ
nonce32 seq = u32 (seq + 2)

-- `seq` after a number of calls.
unfoldable pub seq_after : ℕ → ℕ
unfolding nonce32
seq_after zero = seq_init
seq_after (suc n) = nonce32 (seq_after n)

-- `state->l.g.seq++`
unfoldable pub put_seq : ℕ → ℕ
put_seq seq = u32 (seq + 1)

seq_after_lem : (n : ℕ) → seq_after (suc n) ≡ u32 (2 * n)
unfolding seq_after nonce32
seq_after_lem zero = refl
seq_after_lem (suc n) = omega (arith, seq_after_lem n)

-- Among 2^31 calls in a row no sequence number is used twice, neither by the GETs nor by the PUTs.
pub seq_after-distinct :
    (m n : ℕ)
    → m < n
    → n < m + 2 ^ 31
    → (seq_after (suc m) ≢ seq_after (suc n))
      × (put_seq (seq_after (suc m)) ≢ put_seq (seq_after (suc n)))
      × (seq_after (suc m) ≢ put_seq (seq_after (suc n)))
      × (put_seq (seq_after (suc m)) ≢ seq_after (suc n))
unfolding put_seq
seq_after-distinct m n before near =
    let a = seq_after_lem m in
    let b = seq_after_lem n in
    (
      λ e. omega (arith, a, b, e),
      λ e. omega (arith, a, b, e),
      λ e. omega (arith, a, b, e),
      λ e. omega (arith, a, b, e),
    )
