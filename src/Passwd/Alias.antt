-- ===== src/Passwd/Alias.antt =====
-- userops/file.c: a name may contain the colon that ends a field.
use otpd.Base.{
  ◌≡◌, ap, sym, ◌∙◌, true, false, if◌then◌else◌, List, [], ◌∷◌, ◌++◌, map, Bytes, All, strip_prefix,
  strip_prefix-append, cstr,
}
use mathlib.Core.List.{append_assoc}
use otpd.Otp.{User, Config}
use otpd.Verify.Session.{found}
use otpd.Passwd.{looked_up, found_line, Passwd, file_get}
use otpd.Passwd.Lines.{begins_line, is_line_of, line, find_piece, find_line}
use otpd.Passwd.Entry.{Entry, newline, print_entry, print_file, print_pin, entry_user, IsEntry}
use otpd.Passwd.Laws.{print_entry-name, cstr-print_entry, pieces-print_file}
use otpd.Passwd.Parse.{IsReadable, file_get-found_line, found_line-entry}

-- The name with the card's name behind it.
unfoldable pub alias : Entry → Bytes
alias entry = entry.name ++ b':' ∷ entry.card

is_line_of-alias :
    (entry : Entry) → IsEntry entry → is_line_of (alias entry) (print_entry entry) ≡ true
unfolding is_line_of begins_line alias
is_line_of-alias entry valid =
    let rest = b':' ∷ (entry.key ++ (print_pin entry.pin ++ newline)) in
    let split : print_entry entry ≡ (entry.name ++ b':' ∷ entry.card) ++ rest =
      print_entry-name entry ∙ sym (append_assoc entry.name (b':' ∷ entry.card) rest) in
    ap
      (λ s.
        begins_line (entry.name ++ b':' ∷ entry.card)
          (strip_prefix (entry.name ++ b':' ∷ entry.card) s))
      (cstr-print_entry entry valid ∙ split)
    ∙ ap (begins_line (entry.name ++ b':' ∷ entry.card))
        (strip_prefix-append (entry.name ++ b':' ∷ entry.card) rest)

find_line-alias :
    (entry : Entry) (rest : List Entry)
    → IsEntry entry
    → All IsEntry rest
    → find_line (alias entry) (print_file (entry ∷ rest)) false ≡ line (print_entry entry)
unfolding find_line find_piece
find_line-alias entry rest here valid =
    ap (λ r. find_piece (alias entry) false r.0 r.1)
      (pieces-print_file (entry ∷ rest) (here, valid))
    ∙ ap
        (λ b.
          if b
          then line (cstr (print_entry entry))
          else find_piece (alias entry) false (map print_entry rest) [])
        (is_line_of-alias entry here)
    ∙ ap line (cstr-print_entry entry here)

-- The name "user:card", which no entry has, finds the first entry when its name is "user" and its
-- card "card": it gets that user's card, key and PIN under its own name, so it has a state and a
-- failure count of its own.
pub file_get-alias :
    (passwd : Passwd) (entry : Entry) (rest : List Entry) (config : Config) (fresh : User)
    → IsReadable passwd (entry ∷ rest)
    → IsEntry entry
    → All IsEntry rest
    → file_get passwd config fresh (alias entry)
      ≡ looked_up (found (entry_user config fresh (alias entry) entry))
file_get-alias passwd entry rest config fresh readable here valid =
    file_get-found_line passwd (entry ∷ rest) config fresh (alias entry) readable
    ∙ ap (found_line config fresh (alias entry)) (find_line-alias entry rest here valid)
    ∙ found_line-entry config fresh (alias entry) entry here
