-- ===== src/Helix/Key.antt =====
-- helix.c: the key schedule and the start of a stream.
use otpd.Base.{
  ℕ, zero, suc, ◌+◌, ◌-◌, ◌*◌, ◌%◌, ◌^◌, ◌==◌, Option, none, some, List, [], ◌++◌, ◌∷◌,
  if◌then◌else◌, bit_xor, get_or, ltb, length, Bytes, take, drop, replicate,
}
use otpd.Otp.{u32}
use otpd.Word.{le_word}
use otpd.Helix.{Scontext, Dcontext, Z, helix_magic, helix_block, blocks, table}

-- The words of an area of `n` words.
unfoldable pub le_words : ℕ → Bytes → List ℕ
unfolding le_word
le_words zero up = []
le_words (suc n) up = le_word (take 4 up) ∷ le_words n (drop 4 up)

-- The context of the key mixing: the key words are 0, and x1 cancels the counter.
unfoldable pub mixing : Scontext
mixing = record { magic = 0; l = 0; k = replicate 8 0; x0 = replicate 8 0 }

unfoldable pub mixing_x1 : List ℕ
unfolding table
mixing_x1 = table 8 (λ i. u32 (2 ^ 32 - i))

-- One round of the mixing: the words k[4i]... from the words `k` that begin at k[4i + 4], and the
-- counter behind it.
unfoldable pub mix_words : ℕ → ℕ → List ℕ → List ℕ × ℕ
unfolding mixing mixing_x1 helix_block
mix_words l iplus8 k =
    let z : Z = record {
      z0 = get_or k 0 0;
      z1 = get_or k 1 0;
      z2 = get_or k 2 0;
      z3 = get_or k 3 0;
      z4 = l + 64;
    } in
    let after = (helix_block mixing (record { z = z; x1 = mixing_x1; iplus8 = iplus8 }) 0).1 in
    (
      bit_xor after.z.z0 (get_or k 4 0)
          ∷ bit_xor after.z.z1 (get_or k 5 0)
          ∷ bit_xor after.z.z2 (get_or k 6 0)
          ∷ bit_xor after.z.z3 (get_or k 7 0)
          ∷ k,
      after.iplus8,
    )

-- `n` rounds: the words from k[32 - 4n] on.
unfoldable pub mix_key : ℕ → ℕ → ℕ → List ℕ → List ℕ
unfolding mix_words
mix_key zero l iplus8 k = k
mix_key (suc n) l iplus8 k = let (k', iplus8') = mix_words l iplus8 k in mix_key n l iplus8' k'

-- The static context that is filled in for a key `u`.
unfoldable pub key_context : Bytes → Scontext
unfolding le_words mix_key
key_context u =
    let l = length u in
    let k = take 8 (mix_key 8 l 0 (le_words 8 (u ++ replicate (32 - l) 0))) in
    record { magic = helix_magic; l = l; k = k; x0 = k }

-- At most 32 octets are a key; `none` is a NULL return.
unfoldable pub helix_setkey : Bytes → Option Scontext
unfolding key_context
helix_setkey u = if ltb 32 (length u) then none else some (key_context u)

-- The nonce extended to 8 words.
unfoldable pub nonce_word : List ℕ → ℕ → ℕ
nonce_word n i = if ltb i 4 then get_or n i 0 else u32 (i - 4 + 2 ^ 32 - get_or n (i - 4) 0)

-- A word of the key schedule x1, which is smaller by 2^31.
unfoldable pub nonce_x1 : Scontext → List ℕ → ℕ → ℕ
unfolding nonce_word
nonce_x1 scontext n i = u32 (
    get_or scontext.k ((i + 4) % 8) 0
    + nonce_word n i
    + (if i % 4 == 1 then 4 * scontext.l else 0)
    + 2 ^ 31)

-- The dynamic context before the 8 blocks; the counter is larger by 2^31.
unfoldable pub nonce_start : Scontext → List ℕ → Dcontext
unfolding nonce_x1 table
nonce_start scontext n = record {
  z = record {
    z0 = bit_xor (get_or scontext.k 3 0) (get_or n 0 0);
    z1 = bit_xor (get_or scontext.k 4 0) (get_or n 1 0);
    z2 = bit_xor (get_or scontext.k 5 0) (get_or n 2 0);
    z3 = bit_xor (get_or scontext.k 6 0) (get_or n 3 0);
    z4 = get_or scontext.k 7 0;
  };
  x1 = table 8 (nonce_x1 scontext n);
  iplus8 = 2 ^ 31;
}

-- `helix_nonce` of a nonce of 16 octets.
unfoldable pub helix_nonce : Scontext → Bytes → Dcontext
unfolding le_words nonce_start blocks
helix_nonce scontext n = blocks 8 scontext (nonce_start scontext (le_words 4 n)) 0
