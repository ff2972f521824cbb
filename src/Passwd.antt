-- ===== src/Passwd.antt =====
-- userops/file.c: a user's line in the otppasswd file, "user:card:key" or "user:card:key:pin".
pub mod Lines
pub mod Entry
pub mod Laws
pub mod Parse
pub mod Alias
use otpd.Base.{
  ℕ, ◌%◌, ◌^◌, Bool, not, ◌||◌, if◌then◌else◌, ltb, ◌==◌, Option, none, some, List, [], ◌∷◌, ◌++◌,
  Bytes, length, cstr, strchr, strip_prefix,
}
use otpd.Otp.{User, Config}
use otpd.Passwd.Lines.{Found, line, read_failed, absent, find_line}
use otpd.Verify.Session.{UserLookup, found, not_found, unavailable}

-- The file: the mode that stat() gives, whether fopen() succeeds, the octets, and whether the read
-- fails behind them.
pub record Passwd : Type 0 where
  pub mode : Option ℕ
  pub opens : Bool
  pub content : Bytes
  pub read_error : Bool

-- What file_get() gives, or a strcpy() beyond the array for the card's name.
pub data FileLookup : Type 0 where
  looked_up : UserLookup → FileLookup
  overflows : FileLookup

-- A trailing newline is stripped.
unfoldable pub strip_newline : Bytes → Bytes
strip_newline [] = []
strip_newline (c ∷ []) = if c == b'\n' then [] else c ∷ []
strip_newline (c ∷ d ∷ s) = c ∷ strip_newline (d ∷ s)

-- The fields of the settings, and those that the file does not have.
unfoldable pub filled_in : Config → User → User
filled_in config user = record user {
  gsmd = config.file_gsmd;
  password = none;
  rwindow_size = 0;
  encryptmode = config.file_encryptmode;
  keyid = config.file_keyid;
}

-- The PIN, if there is one, of at most 32 characters and an even number of them.
unfoldable pub parse_pin : Config → User → Option Bytes → FileLookup
unfolding strip_newline filled_in
parse_pin config user none = looked_up (found (filled_in config (record user { pinstring = [] })))
parse_pin config user (some q) =
    let pin = strip_newline q in
    if ltb 32 (length pin) || length pin % 2 == 1
    then looked_up unavailable
    else looked_up (found (filled_in config (record user { pinstring = pin })))

-- The key, of at most 512 characters with the newline, not empty, and an even number without it.
unfoldable pub parse_key : Config → User → Bytes → Option Bytes → FileLookup
unfolding parse_pin strip_newline
parse_key config user p q =
    let key = strip_newline p in
    if ltb 512 (length p)
    then looked_up unavailable
    else if length key == 0 || length key % 2 == 1
    then looked_up unavailable
    else parse_pin config (record user { keystring = key }) q

-- The key and the PIN behind the card.
unfoldable pub key_and_pin : Config → User → Bytes → Option (Bytes × Bytes) → FileLookup
unfolding parse_key
key_and_pin config user rest none = parse_key config user rest none
key_and_pin config user rest (some (key, pin)) = parse_key config user key (some pin)

-- The card's name. One that is too long is logged, and copied all the same.
unfoldable pub parse_card : Config → User → Option (Bytes × Bytes) → FileLookup
unfolding key_and_pin strchr
parse_card config user none = looked_up unavailable
parse_card config user (some (card, rest)) =
    if ltb 31 (length card)
    then overflows
    else key_and_pin config (record user { card = card }) rest (strchr b':' rest)

-- Behind the first colon of the line; `fresh` is the memory that xmalloc() gives.
unfoldable pub parse_line : Config → User → Bytes → Option (Bytes × Bytes) → FileLookup
unfolding parse_card strchr
parse_line config fresh username none = looked_up unavailable
parse_line config fresh username (some (_, p)) =
    parse_card config (record fresh { username = username }) (strchr b':' p)

unfoldable pub found_line : Config → User → Bytes → Found → FileLookup
unfolding parse_line strchr
found_line config fresh username read_failed = looked_up unavailable
found_line config fresh username absent = looked_up not_found
found_line config fresh username (line s) = parse_line config fresh username (strchr b':' s)

-- Of the mode, the owner's execute bit and all bits of the group and of others must be clear.
unfoldable pub file_get : Passwd → Config → User → Bytes → FileLookup
unfolding found_line find_line
file_get passwd config fresh username = elim passwd.mode [
  | none ↦ looked_up unavailable
  | some mode ↦
      if not (mode % 2 ^ 7 == 0) || not passwd.opens
      then looked_up unavailable
      else found_line config fresh username (find_line username passwd.content passwd.read_error)
]
