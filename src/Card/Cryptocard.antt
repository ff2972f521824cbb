-- ===== src/Card/Cryptocard.antt =====
-- cardops/cryptocard.c: the CRYPTOCard token.
pub mod Laws
use mathlib.Core.Option
use otpd.Base.{
  ℕ, ◌+◌, ◌-◌, ◌*◌, ◌%◌, ◌^◌, Bool, true, false, not, Option, none, some, List, [], ◌∷◌, ◌++◌, ◌==◌,
  ltb, if◌then◌else◌, length, take, drop, map, Bytes, memcpy,
}
use otpd.Crypto.{Crypto}
use otpd.Otp.{User, State, has_bit, response_len}
use otpd.Cardops.{Cardops, Challenged, next, failed}
use otpd.Xfunc.{a2nx, x2a, x2a_hex_conversion, x2a_cc_dec_conversion}
use otpd.Card.X99Mac.{x99_mac}
use otpd.Card.Window
use otpd.Card.Hotp.{name2fm}

-- "cryptocard-" and five characters.
abbrev pub cryptocard : ℕ → ℕ → ℕ → ℕ → Bytes
cryptocard display width sync_a sync_b =
    b'c' ∷ b'r' ∷ b'y' ∷ b'p' ∷ b't' ∷ b'o' ∷ b'c' ∷ b'a' ∷ b'r' ∷ b'd' ∷ b'-' ∷ display ∷ width
    ∷ b'-' ∷ sync_a ∷ sync_b ∷ []

-- The features: OTP_CF_AM is 2 and OTP_CF_ES 4, a length stands at 16, and the hexadecimal, the
-- decimal and the phone display are the bits 13, 14 and 15.
abbrev pub hd : ℕ
hd = 2 ^ 13

abbrev pub dd : ℕ
dd = 2 ^ 14

abbrev pub ph : ℕ
ph = 2 ^ 15

abbrev pub cryptocard_cards_of : ℕ → ℕ → ℕ → List (Bytes × ℕ) → List (Bytes × ℕ)
cryptocard_cards_of a b mode rest =
    (cryptocard b'h' b'8' a b, hd + 8 * 16 + mode)
    ∷ (cryptocard b'd' b'8' a b, dd + 8 * 16 + mode)
    ∷ (cryptocard b'h' b'7' a b, hd + 7 * 16 + mode)
    ∷ (cryptocard b'd' b'7' a b, dd + 7 * 16 + mode)
    ∷ (cryptocard b'h' b'p' a b, hd + 8 * 16 + ph + mode)
    ∷ (cryptocard b'd' b'p' a b, dd + 8 * 16 + ph + mode)
    ∷ rest

-- `card[]`: the asynchronous cards, the event synchronous ones, and those that are both.
abbrev pub cryptocard_cards : List (Bytes × ℕ)
cryptocard_cards =
    cryptocard_cards_of b'r' b'c' 2
      (cryptocard_cards_of b'e' b's' 4 (cryptocard_cards_of b'r' b's' 6 []))

-- A 64 bit key.
unfoldable pub cryptocard_keystring2key : User → State → Option (User × State)
unfolding a2nx
cryptocard_keystring2key user state =
    if not (length user.keystring == 16)
    then none
    else Option.map (λ key. (record user { key = key }, state)) (a2nx user.keystring 8)

-- An octet of the MAC as a decimal digit: `|= 0x30` adds to a number below 10.
unfoldable pub decimal_digit : ℕ → ℕ
decimal_digit b = let d = b % 16 in b'0' + (if ltb 9 d then d - 10 else d)

unfoldable pub next_challenge : State → Bytes → Option Bytes → Challenged
unfolding decimal_digit
next_challenge state challenge none = failed
next_challenge state challenge (some output) =
    next (record state { clen = 8 }) (memcpy challenge (map decimal_digit output) 8)

unfoldable pub cryptocard_challenge : Crypto → User → State → Bytes → Challenged
unfolding x99_mac next_challenge
cryptocard_challenge crypto user state challenge =
    next_challenge state challenge (x99_mac crypto challenge state.clen user.key)

-- Steps 3 to 5: the text of the MAC's first four octets, without its fourth character for 7 digits,
-- or with a dash there for a phone display.
unfoldable pub displayed : ℕ → Bytes → Bytes
unfolding x2a has_bit response_len
displayed fm output =
    let conversion = if has_bit fm 14 then x2a_cc_dec_conversion else x2a_hex_conversion in
    let response = x2a (take 4 output) conversion in
    if response_len fm == 7
    then take 3 response ++ drop 4 response
    else if has_bit fm 15
    then take 3 response ++ b'-' ∷ drop 4 response
    else response

unfoldable pub cryptocard_response : Crypto → User → Bytes → ℕ → Option Bytes
unfolding x99_mac displayed
cryptocard_response crypto user challenge len =
    Option.map (displayed user.featuremask) (x99_mac crypto challenge len user.key)

abbrev pub cryptocard_cardops : Crypto → Cardops
cryptocard_cardops crypto = record {
  prefix = b'c' ∷ b'r' ∷ b'y' ∷ b'p' ∷ b't' ∷ b'o' ∷ b'c' ∷ b'a' ∷ b'r' ∷ b'd' ∷ [];
  name2fm = name2fm cryptocard_cards;
  keystring2key = cryptocard_keystring2key;
  nullstate = λ config user state when. none;
  challenge =
      λ user state challenge when twin ewin. cryptocard_challenge crypto user state challenge;
  response = λ user state challenge len time. cryptocard_response crypto user challenge len;
  updatecsd = λ state when twin ewin rc. Window.updatecsd state ewin rc;
  isconsecutive = λ user state ewin. Window.isconsecutive state ewin;
  maxtwin = λ user state when. some 0;
  printchallenge = λ challenge len. take len challenge;
}
