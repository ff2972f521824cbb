-- ===== src/Card/Book.antt =====
-- cardops/: what every token type owes to verify() about the fields that are verify()'s own.
use otpd.Crypto.{Crypto}
use otpd.Card.Window
