-- ===== src/Tests/Tokens.antt =====
-- state.c, site.c, key_from_hash() and the other tokens: the theorems at concrete inputs.
use otpd.Base.{
  ℕ, ◌+◌, ◌*◌, ◌^◌, ◌≡◌, refl, true, false, some, [], ◌∷◌, ◌++◌, arith, replicate, All, IsByte,
}
use otpd.Otp.{State, has_bit}
use otpd.Compare.{key_from_hash}
use otpd.Compare.Laws.{bits7, bits8, key_from_hash_lem}
use otpd.Store.Text.{state_parse, state_unparse}
use otpd.Store.Text.Laws.{IsPrintable, restored, state_parse-state_unparse}
use otpd.Verify.Session.{blank_state}
use otpd.Card.Counter.{counter_bytes}
use otpd.Tests.{user, state}

-- "5:joe:0000000000000007::2:4:3e7:0:"
abbrev pub saved : State
saved = record (state 4) { rd = b'2' ∷ [] }

pub printable : IsPrintable user saved
unfolding counter_bytes
printable = record {
  username = (refl, (refl, (refl, tt)));
  csd = (tt, tt);
  csd_len = omega arith;
  rd = ((refl, tt), (refl, tt));
  rd_len = omega arith;
  clen = omega arith;
  octets = (
    omega arith,
    (
      omega arith,
      (omega arith, (omega arith, (omega arith, (omega arith, (omega arith, (omega arith, tt)))))),
    ),
  );
  filled = omega arith;
  failcount = omega arith;
  authtime = omega arith;
  mincardtime = omega arith;
}

state_parse-state_unparse_example :
    state_parse (state_unparse user saved ++ 0 ∷ []) user.username blank_state
    ≡ some (restored blank_state saved)
state_parse-state_unparse_example = state_parse-state_unparse user saved printable blank_state

unparse_run :
    state_unparse user saved
    ≡ b'5'
      ∷ b':'
      ∷ b'j'
      ∷ b'o'
      ∷ b'e'
      ∷ b':'
      ∷ (replicate 15 b'0'
          ++ b'7' ∷ b':' ∷ b':' ∷ b'2' ∷ b':' ∷ b'4' ∷ b':' ∷ b'3' ∷ b'e' ∷ b'7' ∷ b':' ∷ b'0'
            ∷ b':' ∷ [])
unfolding state_unparse counter_bytes
unparse_run = refl

key_from_hash_lem_example :
    All IsByte (key_from_hash (1 ∷ 2 ∷ 3 ∷ 4 ∷ 5 ∷ 6 ∷ 255 ∷ []))
    × (bits7 0 (key_from_hash (1 ∷ 2 ∷ 3 ∷ 4 ∷ 5 ∷ 6 ∷ 255 ∷ []))
        ≡ bits8 0 (1 ∷ 2 ∷ 3 ∷ 4 ∷ 5 ∷ 6 ∷ 255 ∷ []))
key_from_hash_lem_example = key_from_hash_lem 1 2 3 4 5 6 255 (
  omega arith,
  (omega arith, (omega arith, (omega arith, (omega arith, (omega arith, (omega arith, tt)))))),
)

-- The mask of a decimal card with 7 digits.
abbrev decimal7 : ℕ
decimal7 = 2 ^ 14 + 7 * 16 + 4

decimal : has_bit decimal7 14 ≡ true
unfolding has_bit
decimal = refl

plain : has_bit decimal7 15 ≡ false
unfolding has_bit
plain = refl
