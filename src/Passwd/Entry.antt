-- ===== src/Passwd/Entry.antt =====
-- otppasswd.5.pod: the lines of the otppasswd file, as they are written.
use otpd.Base.{◌≤◌, ◌<◌, ◌%◌, ◌≡◌, Option, none, some, List, [], ◌∷◌, ◌++◌, Bytes, length, Without}
use otpd.Otp.{User, Config}
use otpd.Passwd.{filled_in}

pub record Entry : Type 0 where
  pub name : Bytes
  pub card : Bytes
  pub key : Bytes
  pub pin : Option Bytes

abbrev pub newline : Bytes
newline = b'\n' ∷ []

unfoldable pub print_pin : Option Bytes → Bytes
print_pin none = []
print_pin (some pin) = b':' ∷ pin

-- A line without its newline, and with it.
unfoldable pub print_fields : Entry → Bytes
unfolding print_pin
print_fields entry = entry.name ++ b':' ∷ (entry.card ++ b':' ∷ (entry.key ++ print_pin entry.pin))

unfoldable pub print_entry : Entry → Bytes
unfolding print_fields
print_entry entry = print_fields entry ++ newline

unfoldable pub print_file : List Entry → Bytes
unfolding print_entry
print_file [] = []
print_file (entry ∷ rest) = print_fields entry ++ b'\n' ∷ print_file rest

abbrev pub pin_text : Option Bytes → Bytes
pin_text none = []
pin_text (some pin) = pin

-- The user that an entry stands for, in memory that xmalloc() gave.
unfoldable pub entry_user : Config → User → Bytes → Entry → User
unfolding filled_in
entry_user config fresh username entry = filled_in config (record fresh {
  username = username;
  card = entry.card;
  keystring = entry.key;
  pinstring = pin_text entry.pin;
})

abbrev pub IsPin : Option Bytes → Type 0
IsPin none = Unit
IsPin (some pin) = (length pin ≤ 32) × (length pin % 2 ≡ 0) × Without b':' pin

-- An entry whose fields have no colon, whose line has no newline and no NUL, and whose sizes are in
-- bounds.
pub record IsEntry (entry : Entry) : Type 0 where
  pub fits : length (print_fields entry) ≤ 158
  pub one_line : Without b'\n' (print_fields entry)
  pub no_nul : Without 0 (print_fields entry)
  pub name : Without b':' entry.name
  pub card : Without b':' entry.card
  pub card_len : length entry.card ≤ 31
  pub key : Without b':' entry.key
  pub key_len : (length entry.key ≤ 511) × (0 < length entry.key) × (length entry.key % 2 ≡ 0)
  pub pin : IsPin entry.pin
