-- ===== src/Card/X99.antt =====
-- cardops/x99.c: the generic X9.9 token, asynchronous only.
use otpd.Base.{ℕ, ◌+◌, ◌*◌, false, none, some, List, [], ◌∷◌, take, Bytes}
use otpd.Crypto.{Crypto}
use otpd.Cardops.{Cardops, failed}
use otpd.Xfunc.{x2a, x2a_hex_conversion}
use otpd.Card.Hotp.{name2fm}
use otpd.Card.Cryptocard.{hd, dd, cryptocard_keystring2key, cryptocard_response}

abbrev pub x99_card : ℕ → ℕ → Bytes
x99_card display width = b'x' ∷ b'9' ∷ b'9' ∷ b'-' ∷ display ∷ width ∷ []

abbrev pub x99_cards : List (Bytes × ℕ)
x99_cards =
    (x99_card b'h' b'8', hd + 8 * 16 + 2)
    ∷ (x99_card b'h' b'7', hd + 7 * 16 + 2)
    ∷ (x99_card b'd' b'8', dd + 8 * 16 + 2)
    ∷ (x99_card b'd' b'7', dd + 7 * 16 + 2)
    ∷ []

-- The key and the response are the CRYPTOCard's; there is no synchronous challenge and no data.
abbrev pub x99_cardops : Crypto → Cardops
x99_cardops crypto = record {
  prefix = b'x' ∷ b'9' ∷ b'9' ∷ [];
  name2fm = name2fm x99_cards;
  keystring2key = cryptocard_keystring2key;
  nullstate = λ config user state when. some state;
  challenge = λ user state challenge when twin ewin. failed;
  response = λ user state challenge len time. cryptocard_response crypto user challenge len;
  updatecsd = λ state when twin ewin rc. none;
  isconsecutive = λ user state ewin. false;
  maxtwin = λ user state when. some 0;
  printchallenge = λ challenge len. x2a (take len challenge) x2a_hex_conversion;
}
