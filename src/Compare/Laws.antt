-- ===== src/Compare/Laws.antt =====
-- otp.c, key_from_hash(): the 56 bits of a hash are spread over the high 7 bits of 8 octets.
use otpd.Base.{ℕ, ◌+◌, ◌*◌, ◌/◌, ◌≡◌, [], ◌∷◌, arith, Bytes, All, IsByte}
use otpd.Compare.{key_from_hash_loop, key_from_hash}

-- A list of octets as one number, and the list of the high 7 bits of octets as one number.
abbrev pub bits8 : ℕ → Bytes → ℕ
bits8 acc [] = acc
bits8 acc (b ∷ bs) = bits8 (acc * 256 + b) bs

abbrev pub bits7 : ℕ → Bytes → ℕ
bits7 acc [] = acc
bits7 acc (k ∷ ks) = bits7 (acc * 128 + k / 2) ks

-- The 8 octets of the DES key are octets, and their high 7 bits are the 56 bits of the hash.
pub key_from_hash_lem :
    (a b c d e f g : ℕ)
    → All IsByte (a ∷ b ∷ c ∷ d ∷ e ∷ f ∷ g ∷ [])
    → All IsByte (key_from_hash (a ∷ b ∷ c ∷ d ∷ e ∷ f ∷ g ∷ []))
      × (bits7 0 (key_from_hash (a ∷ b ∷ c ∷ d ∷ e ∷ f ∷ g ∷ []))
          ≡ bits8 0 (a ∷ b ∷ c ∷ d ∷ e ∷ f ∷ g ∷ []))
unfolding key_from_hash key_from_hash_loop
key_from_hash_lem a b c d e f g (ha, (hb, (hc, (hd, (he, (hf, (hg, _))))))) = (
  (
    omega arith,
    (
      omega arith,
      (omega arith, (omega arith, (omega arith, (omega arith, (omega arith, (omega arith, tt)))))),
    ),
  ),
  omega arith,
)
