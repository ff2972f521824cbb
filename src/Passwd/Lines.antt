-- ===== src/Passwd/Lines.antt =====
-- userops/file.c: the calls of fgets() and the search for a user's line.
use otpd.Base.{
  ℕ, ◌-◌, Bool, true, false, ◌||◌, if◌then◌else◌, ◌==◌, Option, none, some, List, [], ◌∷◌, ◌++◌,
  Bytes, cstr, strip_prefix,
}

-- The results of fgets() with an array of 160 octets: pieces that end with a newline or have 159
-- octets, then what is left at the end of the file. `room` octets fit behind `done`.
unfoldable pub pieces : ℕ → Bytes → Bytes → List Bytes × Bytes
pieces room done [] = ([], done)
pieces room done (c ∷ content) =
    let ends = (c == b'\n') || (room == 1) in
    let read = done ++ c ∷ [] in
    let (complete, end) =
      pieces (if ends then 159 else room - 1) (if ends then [] else read) content in
    (if ends then read ∷ complete else complete, end)

-- Whether a piece begins with the name and a colon.
unfoldable pub begins_line : Bytes → Option Bytes → Bool
begins_line username none = false
begins_line username (some []) = false
begins_line username (some (c ∷ _)) = c == b':'

unfoldable pub is_line_of : Bytes → Bytes → Bool
unfolding begins_line strip_prefix cstr
is_line_of username s = begins_line username (strip_prefix username (cstr s))

-- The line of the user, an error of the read, or the end of the file.
pub data Found : Type 0 where
  line : Bytes → Found
  read_failed : Found
  absent : Found

-- The end of the file: an error loses the piece that is not complete.
unfoldable pub find_last : Bytes → Bool → Bytes → Found
unfolding is_line_of
find_last username true end = read_failed
find_last username false end = if is_line_of username end then line (cstr end) else absent

unfoldable pub find_piece : Bytes → Bool → List Bytes → Bytes → Found
unfolding is_line_of find_last
find_piece username error [] end = find_last username error end
find_piece username error (s ∷ rest) end =
    if is_line_of username s then line (cstr s) else find_piece username error rest end

unfoldable pub find_line : Bytes → Bytes → Bool → Found
unfolding pieces find_piece
find_line username content error =
    let (complete, end) = pieces 159 [] content in find_piece username error complete end
