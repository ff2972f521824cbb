-- ===== src/Passwd/Parse.antt =====
-- userops/file.c: the line of an entry gives the entry's user.
use otpd.Base.{
  ℕ, ◌≤◌, ◌<◌, ◌%◌, ◌≡◌, refl, ap, ◌∙◌, Bool, true, false, ◌||◌, if◌then◌else◌, ltb, ◌==◌, Option,
  none, some, List, [], ◌∷◌, ◌++◌, Bytes, bytes_eq, length, length-append, Without, All, arith,
  strchr, strchr-append, strchr-none,
}
use otpd.Otp.{User, Config}
use otpd.Verify.Session.{UserLookup, found, not_found}
use otpd.Passwd.{
  looked_up, overflows, strip_newline, filled_in, parse_pin, parse_key, key_and_pin, parse_card,
  parse_line, found_line, Passwd, file_get,
}
use otpd.Passwd.Lines.{line, find_line}
use otpd.Passwd.Entry.{
  Entry, newline, print_fields, print_entry, print_file, print_pin, pin_text, entry_user, IsEntry,
  IsPin,
}
use otpd.Passwd.Laws.{
  strip_newline-append, print_entry-name, behind_name, find_entry, entry_line, find_line-print_file,
  Without-newline,
}

-- The PIN of an entry, with the newline behind it.
abbrev read_pin : Option Bytes → Option Bytes
read_pin none = none
read_pin (some pin) = some (pin ++ newline)

parse_pin-read_pin :
    (config : Config) (user : User) (pin : Option Bytes)
    → IsPin pin
    → parse_pin config user (read_pin pin)
      ≡ looked_up (found (filled_in config (record user { pinstring = pin_text pin })))
unfolding parse_pin
parse_pin-read_pin config user none valid = refl
parse_pin-read_pin config user (some pin) (short, even, clean) =
    let bounds : (ltb 32 (length pin) || length pin % 2 == 1) ≡ false =
      ground (arith, short, even) in
    rw (strip_newline-append pin, bounds) refl

-- The key as it is read: the newline is behind it where there is no PIN.
parse_key-entry :
    (config : Config) (user : User) (p key : Bytes) (pin : Option Bytes)
    → strip_newline p ≡ key
    → length p ≤ 512
    → 0 < length key
    → length key % 2 ≡ 0
    → IsPin pin
    → parse_key config user p (read_pin pin)
      ≡ looked_up
          (found (filled_in config (record user { keystring = key; pinstring = pin_text pin })))
unfolding parse_key
parse_key-entry config user p key pin stripped short some_key even valid =
    let fits : ltb 512 (length p) ≡ false = ground (arith, short) in
    let sized : (length key == 0 || length key % 2 == 1) ≡ false = ground (arith, some_key, even) in
    rw (fits, stripped, sized)
      (parse_pin-read_pin config (record user { keystring = key }) pin valid)

Without-append : (c : ℕ) (s t : Bytes) → Without c (s ++ t) → Without c s × Without c t
Without-append c [] t clean = (tt, clean)
Without-append c (a ∷ s) t (first, clean) =
    let (left, right) = Without-append c s t clean in ((first, left), right)

strip_newline-Without : (s : Bytes) → Without b'\n' s → strip_newline s ≡ s
unfolding strip_newline
strip_newline-Without [] clean = refl
strip_newline-Without (a ∷ []) clean = rw clean.0 refl
strip_newline-Without (a ∷ b ∷ s) clean = ap (λ t. a ∷ t) (strip_newline-Without (b ∷ s) clean.1)

-- The key in the line has no newline.
key-Without : (entry : Entry) → IsEntry entry → Without b'\n' entry.key
unfolding print_fields
key-Without entry valid =
    let behind = (Without-append b'\n' entry.name _ valid.one_line).1 in
    let after = (Without-append b'\n' entry.card _ behind.1).1 in
    (Without-append b'\n' entry.key (print_pin entry.pin) after.1).0

key_and_pin-entry :
    (config : Config) (user : User) (key : Bytes) (pin : Option Bytes)
    → Without b':' key
    → Without b'\n' key
    → length key ≤ 511
    → 0 < length key
    → length key % 2 ≡ 0
    → IsPin pin
    → key_and_pin config user
        (key ++ (print_pin pin ++ newline))
        (strchr b':' (key ++ (print_pin pin ++ newline)))
      ≡ looked_up
          (found (filled_in config (record user { keystring = key; pinstring = pin_text pin })))
unfolding key_and_pin print_pin
key_and_pin-entry config user key none clean flat short some_key even valid =
    ap (key_and_pin config user (key ++ newline))
      (strchr-none b':' (key ++ newline) (Without-newline b':' key clean refl))
    ∙ parse_key-entry config user (key ++ newline) key none (strip_newline-append key)
        (omega (arith, length-append key newline, short)) some_key even valid
key_and_pin-entry config user key (some pin) clean flat short some_key even valid =
    ap (key_and_pin config user (key ++ b':' ∷ (pin ++ newline)))
      (strchr-append b':' key (pin ++ newline) clean)
    ∙ parse_key-entry config user key key (some pin) (strip_newline-Without key flat)
        (omega (arith, short)) some_key even valid

-- Behind the name and its colon.
parse_card-entry :
    (config : Config) (user : User) (entry : Entry)
    → IsEntry entry
    → parse_card config user (strchr b':' (behind_name entry))
      ≡ looked_up (
          found (
            filled_in config (record user {
              card = entry.card;
              keystring = entry.key;
              pinstring = pin_text entry.pin;
            })))
unfolding parse_card
parse_card-entry config user entry valid =
    let (short, some_key, even) = valid.key_len in
    let fits : ltb 31 (length entry.card) ≡ false = ground (arith, valid.card_len) in
    let rest = entry.key ++ (print_pin entry.pin ++ newline) in
    ap (parse_card config user) (strchr-append b':' entry.card rest valid.card)
    ∙ ap
        (λ b.
          if b
          then overflows
          else key_and_pin config (record user { card = entry.card }) rest (strchr b':' rest))
        fits
    ∙ key_and_pin-entry config (record user { card = entry.card }) entry.key entry.pin valid.key
        (key-Without entry valid) short some_key even valid.pin

-- The line of an entry, found for any name: the card begins behind the first colon.
pub found_line-entry :
    (config : Config) (fresh : User) (username : Bytes) (entry : Entry)
    → IsEntry entry
    → found_line config fresh username (line (print_entry entry))
      ≡ looked_up (found (entry_user config fresh username entry))
unfolding found_line parse_line entry_user
found_line-entry config fresh username entry valid =
    ap (parse_line config fresh username) (
      ap (strchr b':') (print_entry-name entry)
      ∙ strchr-append b':' entry.name (behind_name entry) valid.name)
    ∙ parse_card-entry config (record fresh { username = username }) entry valid

-- What the file has for a name.
unfoldable pub answer_of : Config → User → Bytes → Option Entry → UserLookup
unfolding entry_user
answer_of config fresh username none = not_found
answer_of config fresh username (some entry) = found (entry_user config fresh username entry)

found_line-entries :
    (config : Config) (fresh : User) (username : Bytes) (entries : List Entry)
    → All IsEntry entries
    → found_line config fresh username (entry_line (find_entry username entries))
      ≡ looked_up (answer_of config fresh username (find_entry username entries))
unfolding find_entry answer_of found_line
found_line-entries config fresh username [] valid = refl
found_line-entries config fresh username (entry ∷ rest) (here, valid) =
    go (bytes_eq username entry.name) (found_line-entries config fresh username rest valid)
  where
    go :
        (b : Bool)
        → found_line config fresh username (entry_line (find_entry username rest))
          ≡ looked_up (answer_of config fresh username (find_entry username rest))
        → found_line config fresh username
            (entry_line (if b then some entry else find_entry username rest))
          ≡ looked_up
              (answer_of config fresh username (if b then some entry else find_entry username rest))
    go true later = found_line-entry config fresh username entry here
    go false later = later

-- A file that can be used: the mode has none of the bits that are refused.
pub record IsReadable (passwd : Passwd) (entries : List Entry) : Type 0 where
  pub bits : ℕ
  pub mode : passwd.mode ≡ some bits
  pub strict : bits % 128 ≡ 0
  pub opens : passwd.opens ≡ true
  pub whole : passwd.read_error ≡ false
  pub content : passwd.content ≡ print_file entries

pub file_get-found_line :
    (passwd : Passwd) (entries : List Entry) (config : Config) (fresh : User) (username : Bytes)
    → IsReadable passwd entries
    → file_get passwd config fresh username
      ≡ found_line config fresh username (find_line username (print_file entries) false)
unfolding file_get
file_get-found_line passwd entries config fresh username readable =
    let mode_ok : (readable.bits % 128 == 0) ≡ true = ground (arith, readable.strict) in
    rw (readable.mode, mode_ok, readable.opens, readable.whole, readable.content) refl

-- From a file of well-formed entries that can be read, a name without a colon gets the user of its
-- first entry, with the settings' manager, key and mode, and a name that has no entry is not found.
pub file_get-print_file :
    (passwd : Passwd) (entries : List Entry) (config : Config) (fresh : User) (username : Bytes)
    → IsReadable passwd entries
    → All IsEntry entries
    → Without b':' username
    → file_get passwd config fresh username
      ≡ looked_up (answer_of config fresh username (find_entry username entries))
file_get-print_file passwd entries config fresh username readable valid clean =
    file_get-found_line passwd entries config fresh username readable
    ∙ ap (found_line config fresh username) (find_line-print_file username entries clean valid)
    ∙ found_line-entries config fresh username entries valid
