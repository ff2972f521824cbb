-- ===== src/Tests/Passwords.antt =====
-- userops/file.c: the theorems at a file of two users.
use otpd.Base.{◌≡◌, refl, true, false, none, some, List, [], ◌∷◌, Without, arith}
use otpd.Tests.{config, user}
use otpd.Verify.Session.{found}
use otpd.Passwd.{Passwd, looked_up, file_get}
use otpd.Passwd.Entry.{Entry, print_fields, print_pin, print_file, IsEntry, entry_user}
use otpd.Passwd.Laws.{find_entry}
use otpd.Passwd.Parse.{IsReadable, answer_of, file_get-print_file}
use otpd.Passwd.Alias.{alias, file_get-alias}

abbrev ann : Entry
ann = record {
  name = b'a' ∷ b'n' ∷ [];
  card = b'h' ∷ b'6' ∷ [];
  key = b'0' ∷ b'1' ∷ [];
  pin = none;
}

abbrev joe : Entry
joe = record {
  name = b'j' ∷ b'o' ∷ [];
  card = b'h' ∷ b'8' ∷ [];
  key = b'f' ∷ b'f' ∷ [];
  pin = some (b'3' ∷ b'1' ∷ []);
}

ann-IsEntry : IsEntry ann
unfolding print_fields print_pin
ann-IsEntry = record {
  fits = omega arith;
  one_line = ground arith;
  no_nul = ground arith;
  name = ground arith;
  card = ground arith;
  card_len = omega arith;
  key = ground arith;
  key_len = (omega arith, omega arith, refl);
  pin = tt;
}

joe-IsEntry : IsEntry joe
unfolding print_fields print_pin
joe-IsEntry = record {
  fits = omega arith;
  one_line = ground arith;
  no_nul = ground arith;
  name = ground arith;
  card = ground arith;
  card_len = omega arith;
  key = ground arith;
  key_len = (omega arith, omega arith, refl);
  pin = (omega arith, refl, ground arith);
}

abbrev entries : List Entry
entries = ann ∷ joe ∷ []

-- Mode 0100600.
abbrev passwd : Passwd
passwd = record {
  mode = some 33152;
  opens = true;
  content = print_file entries;
  read_error = false;
}

passwd-IsReadable : IsReadable passwd entries
passwd-IsReadable = record {
  bits = 33152;
  mode = refl;
  strict = refl;
  opens = refl;
  whole = refl;
  content = refl;
}

joe-Without : Without b':' joe.name
joe-Without = (refl, (refl, tt))

file_get-print_file_example :
    file_get passwd config user joe.name
    ≡ looked_up (answer_of config user joe.name (find_entry joe.name entries))
file_get-print_file_example =
    file_get-print_file passwd entries config user joe.name passwd-IsReadable
      (ann-IsEntry, (joe-IsEntry, tt)) joe-Without

file_get-alias_example :
    file_get passwd config user (alias ann)
    ≡ looked_up (found (entry_user config user (alias ann) ann))
file_get-alias_example =
    file_get-alias passwd ann (joe ∷ []) config user passwd-IsReadable ann-IsEntry (joe-IsEntry, tt)
