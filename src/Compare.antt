-- ===== src/Compare.antt =====
-- otp.c, compare() and key_from_hash(): the test of a passcode in each encoding.
pub mod Laws
use otpd.Base.{
  ℕ, suc, ◌+◌, ◌-◌, ◌*◌, ◌/◌, ◌%◌, ◌^◌, Bool, [], ◌∷◌, ◌++◌, take, drop, replicate, Bytes, bytes_eq,
}
use otpd.Crypto.{Crypto}
use otpd.Otp.{Pwe, pap, chap, mschap, mschap2, Request}

-- The loop of key_from_hash() at octet `i`, with what the previous octet left over. A shift of an
-- `unsigned char` keeps its low 8 bits. The two operands of `|` have no bit in common.
unfoldable pub key_from_hash_loop : Bytes → ℕ → ℕ → Bytes
key_from_hash_loop [] i next = next ∷ []
key_from_hash_loop (working ∷ rest) i next =
    (working / 2 ^ i + next) ∷ key_from_hash_loop rest (suc i) ((working * 2 ^ (7 - i)) % 256)

-- 7 octets of a hash spread over the 8 octets of a DES key.
unfoldable pub key_from_hash : Bytes → Bytes
unfolding key_from_hash_loop
key_from_hash hash = key_from_hash_loop hash 0 0

-- The password as 16 bit characters.
unfoldable pub unicode : Bytes → Bytes
unicode [] = []
unicode (c ∷ s) = c ∷ 0 ∷ unicode s

module _ (crypto : Crypto) where
  -- The NT response to an 8 octet challenge: three encryptions under thirds of the hash.
  unfoldable pub nt_response : Bytes → Bytes → Bytes
  unfolding unicode key_from_hash
  nt_response passcode challenge =
      let nt_keys = take 21 (crypto.md4 (unicode passcode) ++ replicate 21 0) in
      let third = λ (i : ℕ).
        crypto.des_ecb_encrypt (key_from_hash (take 7 (drop (i * 7) nt_keys))) challenge in
      third 0 ++ (third 1 ++ third 2)

  -- `compare(request, passcode) == 0`.
  unfoldable pub matches : Request → Pwe → Bytes → Bool
  unfolding nt_response bytes_eq
  matches request (pap given) passcode = bytes_eq given passcode
  matches request (chap c) passcode =
      bytes_eq (crypto.md5 (take 1 c.response ++ (passcode ++ take c.clen c.challenge)))
        (take 16 (drop 1 c.response))
  matches request (mschap c) passcode =
      bytes_eq (nt_response passcode (take 8 c.challenge)) (take 24 (drop 26 c.response))
  matches request (mschap2 c) passcode =
      bytes_eq
        (nt_response passcode (
          take 8 (
            crypto.sha1
              (take 16 (drop 2 c.response) ++ (take 16 c.challenge ++ request.username)))))
        (take 24 (drop 26 c.response))

  unfoldable pub compare : Request → Bytes → Bool
  unfolding matches
  compare request passcode = matches request request.pwe passcode
