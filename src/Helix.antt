-- ===== src/Helix.antt =====
-- helix.c: the Helix cipher. `helix_setkey` makes a static context from a key, `helix_nonce` a
-- dynamic one from a nonce, and a message is encrypted or decrypted with its MAC.
pub mod Key
pub mod Cipher
pub mod Lengths
pub mod RoundTrip
use otpd.Base.{
  ℕ, zero, suc, ◌+◌, ◌-◌, ◌/◌, ◌%◌, ◌^◌, ◌==◌, List, [], ◌++◌, ◌∷◌, if◌then◌else◌, bit_xor, get_or,
}
use otpd.Otp.{u32}
use otpd.Word.{rol}

-- HELIX_MAGIC
abbrev pub helix_magic : ℕ
helix_magic = 2435683569

-- `helix_scontext_t`
pub record Scontext : Type 0 where
  pub magic : ℕ
  pub l : ℕ
  pub k : List ℕ
  pub x0 : List ℕ

-- The 5 words of the working state.
pub record Z : Type 0 where
  pub z0 : ℕ
  pub z1 : ℕ
  pub z2 : ℕ
  pub z3 : ℕ
  pub z4 : ℕ

-- `helix_dcontext_t`: `iplus8hp` points to the high half of `iplus8`.
pub record Dcontext : Type 0 where
  pub z : Z
  pub x1 : List ℕ
  pub iplus8 : ℕ

-- The first and the third row of the block, which add `a` to z0.
unfoldable pub add_row : ℕ → Z → Z
unfolding rol
add_row a z =
    let z0 = u32 (z.z0 + a) in
    let z3 = rol z.z3 15 in
    let z1 = u32 (z.z1 + z.z4) in
    let z4 = rol z.z4 25 in
    let z2 = bit_xor z.z2 z0 in
    let z0' = rol z0 9 in
    let z3' = bit_xor z3 z1 in
    let z1' = rol z1 10 in
    let z4' = u32 (z4 + z2) in record { z0 = z0'; z1 = z1'; z2 = rol z2 17; z3 = z3'; z4 = z4' }

-- The second and the fourth row, which xor z3 + `x` into z0.
unfoldable pub xor_row : ℕ → Z → Z
unfolding rol
xor_row x z =
    let z0 = bit_xor z.z0 (u32 (z.z3 + x)) in
    let z3 = rol z.z3 30 in
    let z1 = bit_xor z.z1 z.z4 in
    let z4 = rol z.z4 13 in
    let z2 = u32 (z.z2 + z0) in
    let z0' = rol z0 20 in
    let z3' = u32 (z3 + z1) in
    let z1' = rol z1 11 in
    let z4' = bit_xor z4 z2 in record { z0 = z0'; z1 = z1'; z2 = rol z2 5; z3 = z3'; z4 = z4' }

-- The four rows with the plaintext word `p` and the key words `x0` and `x1`.
unfoldable pub rounds : ℕ → ℕ → ℕ → Z → Z
unfolding add_row xor_row
rounds p x0 x1 z = let a = xor_row x0 (add_row z.z3 z) in xor_row x1 (add_row (bit_xor a.z3 p) a)

-- The key word x1 with the counter.
unfoldable pub block_x1 : Dcontext → ℕ
block_x1 dcontext =
    let i = dcontext.iplus8 in
    let x1 = u32 (get_or dcontext.x1 (i % 8) 0 + i) in
    if i % 4 == 3 then u32 (x1 + i / 2 ^ 32) else x1

-- `helix_block`: the keystream word and the next context.
unfoldable pub helix_block : Scontext → Dcontext → ℕ → ℕ × Dcontext
unfolding rounds block_x1
helix_block scontext dcontext p =
    let i = dcontext.iplus8 in
    (
      dcontext.z.z0,
      record {
        z = rounds p (get_or scontext.x0 (i % 8) 0) (block_x1 dcontext) dcontext.z;
        x1 = dcontext.x1;
        iplus8 = (i + 1) % 2 ^ 64;
      },
    )

-- A number of blocks that mix in the same word, for the state that they leave.
unfoldable pub blocks : ℕ → Scontext → Dcontext → ℕ → Dcontext
unfolding helix_block
blocks zero scontext dcontext p = dcontext
blocks (suc n) scontext dcontext p = blocks n scontext (helix_block scontext dcontext p).1 p

-- An array of `n` words from their indices.
unfoldable pub table : ℕ → (ℕ → ℕ) → List ℕ
table zero f = []
table (suc n) f = table n f ++ f n ∷ []
