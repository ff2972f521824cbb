-- ===== src/Passwd/Laws.antt =====
-- userops/file.c: the pieces of a printed file are its lines, and a line gives its entry's user.
use otpd.Base.{
  ℕ, ◌-◌, ◌<◌, ◌≡◌, refl, ap, ap₂, ◌∙◌, Bool, true, false, ◌||◌, if◌then◌else◌, ◌==◌, Option, none,
  some, List, [], ◌∷◌, ◌++◌, map, Bytes, length, Without, All, arith, cstr, strip_prefix, bytes_eq,
}
use mathlib.Core.List.{append_assoc}
use otpd.Passwd.{strip_newline}
use otpd.Passwd.Lines.{
  pieces, begins_line, is_line_of, Found, line, absent, find_last, find_piece, find_line,
}
use otpd.Passwd.Entry.{Entry, newline, print_fields, print_entry, print_file, print_pin, IsEntry}

pieces-newline :
    (room : ℕ) (done content : Bytes)
    → pieces room done (b'\n' ∷ content)
      ≡ ((done ++ newline) ∷ (pieces 159 [] content).0, (pieces 159 [] content).1)
unfolding pieces
pieces-newline room done content = refl

pieces-inside :
    (room c : ℕ) (done content : Bytes)
    → ((c == b'\n') || (room == 1)) ≡ false
    → pieces room done (c ∷ content) ≡ pieces (room - 1) (done ++ c ∷ []) content
unfolding pieces
pieces-inside room c done content inside =
    let read = done ++ c ∷ [] in
    ap
      (λ ends.
        let rest = pieces (if ends then 159 else room - 1) (if ends then [] else read) content in
        (if ends then read ∷ rest.0 else rest.0, rest.1))
      inside

-- A line with its newline is one piece.
pieces-line :
    (l done content : Bytes) (room : ℕ)
    → Without b'\n' l
    → length l < room
    → pieces room done (l ++ b'\n' ∷ content)
      ≡ ((done ++ (l ++ newline)) ∷ (pieces 159 [] content).0, (pieces 159 [] content).1)
pieces-line [] done content room clean fits = pieces-newline room done content
pieces-line (a ∷ l) done content room clean fits =
    pieces-inside room a done (l ++ b'\n' ∷ content) (ground (arith, clean.0, fits))
    ∙ pieces-line l (done ++ a ∷ []) content (room - 1) clean.1 (omega (arith, fits))
    ∙ ap (λ s. (s ∷ (pieces 159 [] content).0, (pieces 159 [] content).1))
        (append_assoc done (a ∷ []) (l ++ newline))

cstr-Without : (s : Bytes) → Without 0 s → cstr s ≡ s
unfolding cstr
cstr-Without [] clean = refl
cstr-Without (a ∷ s) clean = rw clean.0 (ap (λ t. a ∷ t) (cstr-Without s clean.1))

pub strip_newline-append : (s : Bytes) → strip_newline (s ++ newline) ≡ s
unfolding strip_newline
strip_newline-append [] = refl
strip_newline-append (a ∷ []) = refl
strip_newline-append (a ∷ b ∷ s) = ap (λ t. a ∷ t) (strip_newline-append (b ∷ s))

-- A line is the line of a name without colons exactly when it is its first field.
is_line_of-name :
    (username name rest : Bytes)
    → Without b':' username
    → Without b':' name
    → begins_line username (strip_prefix username (name ++ b':' ∷ rest)) ≡ bytes_eq username name
unfolding begins_line strip_prefix bytes_eq
is_line_of-name [] [] rest u n = refl
is_line_of-name [] (a ∷ name) rest u n = n.0
is_line_of-name (c ∷ username) [] rest u n = rw u.0 refl
is_line_of-name (c ∷ username) (a ∷ name) rest u n =
    ground (arith, is_line_of-name username name rest u.1 n.1)

pieces-end : pieces 159 [] [] ≡ ([], [])
unfolding pieces
pieces-end = refl

pub Without-newline :
    (c : ℕ) (s : Bytes) → Without c s → (b'\n' == c) ≡ false → Without c (s ++ newline)
Without-newline c [] clean other = (other, tt)
Without-newline c (a ∷ s) (first, clean) other = (first, Without-newline c s clean other)

-- What stands behind the name in the line of an entry.
abbrev pub behind_name : Entry → Bytes
behind_name entry = entry.card ++ b':' ∷ (entry.key ++ (print_pin entry.pin ++ newline))

pub print_entry-name : (entry : Entry) → print_entry entry ≡ entry.name ++ b':' ∷ behind_name entry
unfolding print_entry print_fields
print_entry-name entry =
    append_assoc entry.name (b':' ∷ (entry.card ++ b':' ∷ (entry.key ++ print_pin entry.pin)))
      newline
    ∙ ap (λ t. entry.name ++ b':' ∷ t)
        (append_assoc entry.card (b':' ∷ (entry.key ++ print_pin entry.pin)) newline
          ∙ ap (λ t. entry.card ++ b':' ∷ t) (append_assoc entry.key (print_pin entry.pin) newline))

-- The pieces of a printed file are the lines of its entries.
pub pieces-print_file :
    (entries : List Entry)
    → All IsEntry entries
    → pieces 159 [] (print_file entries) ≡ (map print_entry entries, [])
unfolding print_file print_entry
pieces-print_file [] valid = pieces-end
pieces-print_file (entry ∷ rest) (here, valid) =
    pieces-line (print_fields entry) [] (print_file rest) 159 here.one_line
      (omega (arith, here.fits))
    ∙ ap (λ r. ((print_fields entry ++ newline) ∷ r.0, r.1)) (pieces-print_file rest valid)

-- The entry of a name: the first that has it.
unfoldable pub find_entry : Bytes → List Entry → Option Entry
unfolding bytes_eq
find_entry username [] = none
find_entry username (entry ∷ rest) =
    if bytes_eq username entry.name then some entry else find_entry username rest

abbrev pub entry_line : Option Entry → Found
entry_line none = absent
entry_line (some entry) = line (print_entry entry)

pub cstr-print_entry :
    (entry : Entry) → IsEntry entry → cstr (print_entry entry) ≡ print_entry entry
unfolding print_entry
cstr-print_entry entry valid =
    cstr-Without _ (Without-newline 0 (print_fields entry) valid.no_nul refl)

is_line_of-nil : (username : Bytes) → is_line_of username [] ≡ false
unfolding is_line_of begins_line strip_prefix cstr
is_line_of-nil [] = refl
is_line_of-nil (c ∷ username) = refl

is_line_of-entry :
    (username : Bytes) (entry : Entry)
    → Without b':' username
    → IsEntry entry
    → is_line_of username (print_entry entry) ≡ bytes_eq username entry.name
unfolding is_line_of
is_line_of-entry username entry clean valid =
    ap (λ s. begins_line username (strip_prefix username s))
      (cstr-print_entry entry valid ∙ print_entry-name entry)
    ∙ is_line_of-name username entry.name _ clean valid.name

find_piece-entries :
    (username : Bytes) (entries : List Entry)
    → Without b':' username
    → All IsEntry entries
    → find_piece username false (map print_entry entries) []
      ≡ entry_line (find_entry username entries)
unfolding find_piece find_entry find_last
find_piece-entries username [] clean valid =
    ap (λ b. if b then line (cstr []) else absent) (is_line_of-nil username)
find_piece-entries username (entry ∷ rest) clean (here, valid) =
    ap₂ (λ b s. if b then line s else find_piece username false (map print_entry rest) [])
      (is_line_of-entry username entry clean here) (cstr-print_entry entry here)
    ∙ go (bytes_eq username entry.name) (find_piece-entries username rest clean valid)
  where
    go :
        (b : Bool)
        → find_piece username false (map print_entry rest) []
          ≡ entry_line (find_entry username rest)
        → (if b
            then line (print_entry entry)
            else find_piece username false (map print_entry rest) [])
          ≡ entry_line (if b then some entry else find_entry username rest)
    go true later = refl
    go false later = later

-- In a file that is read without an error, the search finds the line of the first entry with the
-- name.
pub find_line-print_file :
    (username : Bytes) (entries : List Entry)
    → Without b':' username
    → All IsEntry entries
    → find_line username (print_file entries) false ≡ entry_line (find_entry username entries)
unfolding find_line
find_line-print_file username entries clean valid =
    ap (λ r. find_piece username false r.0 r.1) (pieces-print_file entries valid)
    ∙ find_piece-entries username entries clean valid
