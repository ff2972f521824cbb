-- ===== src/Store/File.antt =====
-- state.c, state_read() and state_write(): the file of a user's state.
pub mod Laws
use otpd.Base.{
  ℕ, Bool, true, false, Option, none, some, List, [], ◌∷◌, ◌++◌, ◌==◌, ltb, if◌then◌else◌, length,
  Bytes,
}

-- What open() and the loop of read() come to: no file, an error, or the octets of the file.
pub data Opened : Type 0 where
  absent : Opened
  unreadable : Opened
  contents : Bytes → Opened

-- The last newline becomes the NUL; without one a NUL is added. An empty file stays empty.
unfoldable pub nul_ended : Bytes → Bytes
nul_ended [] = []
nul_ended (c ∷ []) = if c == 10 then 0 ∷ [] else c ∷ 0 ∷ []
nul_ended (c ∷ d ∷ s) = c ∷ nul_ended (d ∷ s)

-- A file of more than GSM_MAX_STATE_LEN octets does not fit the buffer.
unfoldable pub state_read : Opened → Option Bytes
unfolding nul_ended
state_read absent = some []
state_read unreadable = none
state_read (contents file) = if ltb 892 (length file) then none else some (nul_ended file)

-- The text with a newline at its end, unless it has one or is empty.
unfoldable pub line_ended : Bytes → Bytes
line_ended [] = []
line_ended (c ∷ []) = if c == 10 then c ∷ [] else c ∷ 10 ∷ []
line_ended (c ∷ d ∷ s) = c ∷ line_ended (d ∷ s)

-- Whether mkstemp(), the write and rename() all succeed.
pub data Written : Type 0 where
  renamed : Written
  write_failed : Written

-- The text goes to a temporary file, which takes the place of the old one only when it is whole.
-- `false` is -1.
unfoldable pub state_write : Written → Bytes → Opened → Bool × Opened
unfolding line_ended
state_write renamed buf old = (true, contents (line_ended buf))
state_write write_failed buf old = (false, old)
