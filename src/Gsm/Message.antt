-- ===== src/Gsm/Message.antt =====
-- gsm.h, state.c: the parts of a sealed message in a buffer.
use otpd.Base.{
  ℕ, zero, suc, ◌+◌, ◌-◌, ◌*◌, ◌/◌, ◌≤◌, ◌≡◌, refl, ap, ap₂, sym, subst, ◌∙◌, none, some, [], ◌∷◌,
  ◌++◌, Bytes, length, length-append, take, drop, get_or, replicate, take-append_self,
  drop-append_self, arith,
}
use mathlib.Core.List.{append_assoc}
use otpd.Helix.{Scontext}
use otpd.Helix.Key.{helix_nonce}
use otpd.Helix.Cipher.{helix_encrypt, helix_decrypt}
use otpd.Gsm.{Streamid, nonce_of, padded, round4, seal}
use otpd.Gsm.Packet.{stored_at, placed, decrypt_in_place}

pub take-length : (xs ys : Bytes) (n : ℕ) → length xs ≡ n → take n (xs ++ ys) ≡ xs
take-length xs ys n e = subst (λ k. take k (xs ++ ys) ≡ xs) e (take-append_self xs ys)

pub drop-length : (xs ys : Bytes) (n : ℕ) → length xs ≡ n → drop n (xs ++ ys) ≡ ys
drop-length xs ys n e = subst (λ k. drop k (xs ++ ys) ≡ ys) e (drop-append_self xs ys)

pub get_or-length : (xs ys : Bytes) → get_or (xs ++ ys) (length xs) 0 ≡ get_or ys 0 0
get_or-length [] ys = refl
get_or-length (x ∷ xs) ys = get_or-length xs ys

pub length-nonce_of :
    (streamid : Streamid) (len cmd seq : ℕ) → length (nonce_of streamid len cmd seq) ≡ 16
unfolding nonce_of
length-nonce_of streamid len cmd seq = refl

pub take-all : (xs : Bytes) → take (length xs) xs ≡ xs
take-all [] = refl
take-all (x ∷ xs) = ap (λ t. x ∷ t) (take-all xs)

-- The decryption in a buffer that holds a nonce, a ciphertext and more.
pub decrypt_in_place-parts :
    (scontext : Scontext) (n c q p m : Bytes) (rlen : ℕ)
    → length n ≡ 16
    → rlen ≡ 32 + length c
    → helix_decrypt scontext (helix_nonce scontext n) c ≡ some (p, m)
    → decrypt_in_place scontext (n ++ (c ++ q)) rlen ≡ some (n ++ p ++ q, m)
unfolding decrypt_in_place
decrypt_in_place-parts scontext n c q p m rlen n_len size back =
    let nonce : take 16 (n ++ (c ++ q)) ≡ n = take-length n (c ++ q) 16 n_len in
    let text : take (rlen - 32) (drop 16 (n ++ (c ++ q))) ≡ c =
      ap (take (rlen - 32)) (drop-length n (c ++ q) 16 n_len)
      ∙ take-length c q (rlen - 32) (omega (arith, size)) in
    let end : drop (rlen - 16) (n ++ (c ++ q)) ≡ q =
      ap (drop (rlen - 16)) (sym (append_assoc n c q))
      ∙ drop-length (n ++ c) q (rlen - 16) (omega (arith, length-append n c, size, n_len)) in
    ap (placed (n ++ (c ++ q)) rlen)
      (ap₂ (λ a b. helix_decrypt scontext (helix_nonce scontext a) b) nonce text ∙ back)
    ∙ ap₂ (λ a d. some (a ++ p ++ d, m)) nonce end

-- A text with its NUL and padding, and what follows.
pub padded-text :
    (username tail q : Bytes)
    → (z : Bytes) × (padded (b'A' ∷ b' ' ∷ (username ++ tail)) ++ q
        ≡ b'A' ∷ b' ' ∷ (username ++ (tail ++ 0 ∷ z)))
unfolding padded round4
padded-text username tail q =
    let n = length (b'A' ∷ b' ' ∷ (username ++ tail)) in
    let k = (n + 1 + 3) / 4 * 4 - n - 1 in
    let more : (n + 1 + 3) / 4 * 4 - n ≡ suc k = omega arith in
    (
      replicate k 0 ++ q,
      ap (λ t. b'A' ∷ b' ' ∷ t)
          (ap (λ i. (username ++ tail) ++ replicate i 0 ++ q) more
            ∙ append_assoc (username ++ tail) (0 ∷ replicate k 0) q
            ∙ append_assoc username tail (0 ∷ (replicate k 0 ++ q))),
    )

length-replicate : (n c : ℕ) → length (replicate n c) ≡ n
length-replicate zero c = refl
length-replicate (suc n) c = ap suc (length-replicate n c)

pub length-padded :
    (text : Bytes)
    → (length (padded text) ≤ length text + 4) × (length text + 1 ≤ length (padded text))
unfolding padded round4
length-padded text =
    let n = length text in
    let size = length-append text (replicate ((n + 1 + 3) / 4 * 4 - n) 0) in
    let zeros = length-replicate ((n + 1 + 3) / 4 * 4 - n) 0 in
    (omega (arith, size, zeros), omega (arith, size, zeros))

pub length-padded_round : (text : Bytes) → length (padded text) ≡ (length text + 4) / 4 * 4
unfolding padded round4
length-padded_round text =
    let n = length text in
    omega (
      arith,
      length-append text (replicate ((n + 1 + 3) / 4 * 4 - n) 0),
      length-replicate ((n + 1 + 3) / 4 * 4 - n) 0,
    )

pub seal-some :
    (scontext : Scontext) (streamid : Streamid) (seq : ℕ) (text c m : Bytes)
    → helix_encrypt scontext
        (helix_nonce scontext (nonce_of streamid (length text + 1) (get_or text 0 0) seq))
        (padded text)
      ≡ some (c, m)
    → seal scontext streamid seq text
      ≡ some (nonce_of streamid (length text + 1) (get_or text 0 0) seq ++ c ++ m)
unfolding seal
seal-some scontext streamid seq text c m encrypted =
    ap
      (λ o. elim o [
        | none ↦ none
        | some (c, m) ↦ some (nonce_of streamid (length text + 1) (get_or text 0 0) seq ++ c ++ m)
      ])
      encrypted

-- What recv() leaves of a message in the buffer.
pub stored_at-parts :
    (n c m old : Bytes)
    → stored_at old (n ++ c ++ m) ≡ n ++ (c ++ (m ++ drop (length (n ++ c ++ m)) old))
stored_at-parts n c m old =
    let rest = drop (length (n ++ c ++ m)) old in
    ap (λ t. t ++ rest) (take-all (n ++ c ++ m))
    ∙ append_assoc (n ++ c) m rest
    ∙ append_assoc n c (m ++ rest)
