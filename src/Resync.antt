-- ===== src/Resync.antt =====
-- resynctool.c: the search for the counter of an HOTP token from two passcodes in a row, and the
-- state that the tool prints.
pub mod Laws
use otpd.Base.{
  ℕ, zero, suc, ◌+◌, ◌-◌, ◌*◌, ◌/◌, ◌%◌, ◌^◌, Bool, true, false, not, ◌&&◌, ◌||◌, if◌then◌else◌,
  ltb, ◌==◌, Option, none, some, [], ◌∷◌, ◌++◌, Bytes, bytes_eq, length,
}
use otpd.Crypto.{Crypto}
use otpd.Stdio.{print_padded}
use otpd.Xfunc.{a2x, x2a, x2a_hex_conversion}
use otpd.HotpMac.{dbc}
use otpd.Card.Counter.{counter_bytes}

-- A key of up to 64 digits, with a line ending that is not counted; the tool's a2x() is the code of
-- xfunc.c.
unfoldable pub keystring2keyblock : Bytes → Option Bytes
unfolding a2x
keystring2keyblock keystring = if ltb 64 (length keystring / 2 * 2) then none else a2x keystring

-- The array `md` behind HMAC(), whose result is not tested: `stale` is what it held before.
unfoldable pub digest : Bytes → Option Bytes → Bytes
digest stale none = stale
digest stale (some md) = md

-- The response of 6 digits at a counter.
unfoldable pub hotp : Crypto → Bytes → Bytes → ℕ → Bytes
unfolding digest dbc print_padded counter_bytes
hotp crypto stale key counter =
    print_padded 6 (dbc (digest stale (crypto.hmac_sha1 key (counter_bytes counter))) % 10 ^ 6)

module _ (response : ℕ → Bytes) (pass1 pass2 : Bytes) where
  -- The loop from `counter` with `n` counters left. A counter that shows the first passcode is
  -- followed by one that is tested for the second only, which `skip` passes over. The last counter
  -- is not 2 ^ 64 - 1, from where C starts again at 0.
  unfoldable pub search : ℕ → ℕ → Bool → Option ℕ
  unfolding bytes_eq
  search zero counter skip = none
  search (suc n) counter skip =
      let first = not skip && bytes_eq (response counter) pass1 in
      let rest = search n (counter + 1) first in
      if first && bytes_eq (response (counter + 1)) pass2 then some (counter + 1) else rest

-- The line that is printed: "5:%s:%s:::0:0:0:\n".
unfoldable pub state_line : Bytes → ℕ → Bytes
unfolding x2a counter_bytes
state_line username counter =
    b'5'
    ∷ b':'
    ∷ (username
        ++ b':'
          ∷ (x2a (counter_bytes counter) x2a_hex_conversion
              ++ b':' ∷ b':' ∷ b':' ∷ b'0' ∷ b':' ∷ b'0' ∷ b':' ∷ b'0' ∷ b':' ∷ b'\n' ∷ []))

-- How the tool ends.
pub data Exit : Type 0 where
  wrong_length : Exit
  invalid_key : Exit
  not_found : Exit
  printed : Bytes → Exit

-- Without a last counter, 65536 are searched.
unfoldable pub last_counter : ℕ → ℕ → ℕ
last_counter initial final = if final == 0 then (initial + 65536) % 2 ^ 64 else final

unfoldable pub report : Bytes → Option ℕ → Exit
unfolding state_line
report username none = not_found
report username (some counter) = printed (state_line username counter)

unfoldable pub resync_key : Crypto → Bytes → Bytes → Bytes → Bytes → ℕ → ℕ → Option Bytes → Exit
unfolding report search hotp last_counter
resync_key crypto stale username pass1 pass2 initial final none = invalid_key
resync_key crypto stale username pass1 pass2 initial final (some key) = report username (
    search (hotp crypto stale key) pass1 pass2 (last_counter initial final - initial) initial false)

-- main() behind its options.
unfoldable pub resynctool : Crypto → Bytes → Bytes → Bytes → Bytes → Bytes → ℕ → ℕ → Exit
unfolding resync_key keystring2keyblock
resynctool crypto stale username keystring pass1 pass2 initial final =
    if not (length pass1 == 6) || not (length pass2 == 6)
    then wrong_length
    else resync_key crypto stale username pass1 pass2 initial final (keystring2keyblock keystring)
