-- ===== src/Card/X99Mac.antt =====
-- x99.c: the X9.9 MAC, the last block of a CBC encryption.
use otpd.Base.{ℕ, ◌-◌, ◌*◌, ◌/◌, Option, none, some, take, drop, Bytes}
use otpd.Crypto.{Crypto}

-- `l_output[(len - 1) / 8]` of the blocks that were encrypted.
unfoldable pub last_block : ℕ → Bytes → Bytes
last_block len blocks = take 8 (drop (((len - 1) / 8) * 8) blocks)

-- A key that des_set_key_checked() refuses gives -1. The `len` octets of input are not empty.
unfoldable pub x99_mac : Crypto → Bytes → ℕ → Bytes → Option Bytes
unfolding last_block
x99_mac crypto input len key = elim (crypto.des_cbc_encrypt (take 8 key) (take len input)) [
  | none ↦ none
  | some blocks ↦ some (last_block len blocks)
]
