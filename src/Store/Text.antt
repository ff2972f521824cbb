-- ===== src/Store/Text.antt =====
-- state.c, state_parse() and state_unparse(): the text of a state, "5:user:challenge:csd:rd:" and
-- three numbers, each with its colon.
pub mod Laws
use otpd.Base.{
  ℕ, ◌+◌, ◌%◌, true, false, Bool, Option, none, some, [], ◌∷◌, ◌++◌, ◌==◌, ltb, if◌then◌else◌,
  length, take, Bytes, cstr, memcpy, strchr, strip_prefix,
}
use otpd.Otp.{User, State}
use otpd.Stdio.{print_hex, scan_hex}
use otpd.Xfunc.{a2x, x2a, x2a_hex_conversion}

infixl 5 ◌>>=◌
abbrev pub ◌>>=◌ : {A B : Type 0} → Option A → (A → Option B) → Option B
none >>= f = none
some a >>= f = f a

-- `*q++ = '\0'` at the next colon: the field before it, and what stands behind it.
abbrev pub colon : ℕ
colon = b':'

unfoldable pub parse_challenge : Bytes → State → Option State
unfolding a2x
parse_challenge p state = if ltb 32 (length p) then none else if length p % 2 == 1 then none else do
  x ← a2x p
  some (record state { challenge = memcpy state.challenge x (length x); clen = length x })

-- A field of at most `max` characters.
unfoldable pub bounded : ℕ → Bytes → Option Bytes
bounded max p = if ltb max (length p) then none else some p

-- From the challenge on.
unfoldable pub parse_fields : Bytes → State → Option State
unfolding strchr parse_challenge bounded scan_hex
parse_fields text state = do
  (challenge, text₁) ← strchr colon text
  state₁ ← parse_challenge challenge state
  (csd_field, text₂) ← strchr colon text₁
  csd ← bounded 63 csd_field
  (rd_field, text₃) ← strchr colon text₂
  rd ← bounded 31 rd_field
  (failcount_field, text₄) ← strchr colon text₃
  failcount ← scan_hex failcount_field
  (authtime_field, text₅) ← strchr colon text₄
  authtime ← scan_hex authtime_field
  (mincardtime_field, text₆) ← strchr colon text₅
  mincardtime ← scan_hex mincardtime_field
  some (record state₁ {
    csd = csd;
    rd = rd;
    failcount = failcount;
    authtime = authtime;
    mincardtime = mincardtime;
  })

-- The version, the user's name and its colon, and the fields.
unfoldable pub parse_text : Bytes → Bytes → State → Option State
unfolding strip_prefix parse_fields
parse_text text username state = do
  text₁ ← strip_prefix (b'5' ∷ colon ∷ []) text
  text₂ ← strip_prefix username text₁
  text₃ ← strip_prefix (colon ∷ []) text₂
  parse_fields text₃ state

-- `buf` is the area of `buflen` octets; its text ends at the first NUL.
unfoldable pub state_parse : Bytes → Bytes → State → Option State
unfolding cstr parse_text
state_parse buf username state =
    if length buf == 0
    then some (record state { nullstate = true })
    else if ltb (length buf) (4 + length username)
    then none
    else parse_text (cstr buf) username (record state { nullstate = false })

-- A field, its colon, and the rest: "%s:".
abbrev pub field : Bytes → Bytes → Bytes
field text rest = text ++ colon ∷ rest

unfoldable pub unparse_fields : State → Bytes
unfolding x2a print_hex
unparse_fields state = field (x2a (take state.clen state.challenge) x2a_hex_conversion) (
    field state.csd (
      field state.rd (
        field (print_hex state.failcount)
          (field (print_hex state.authtime) (field (print_hex state.mincardtime) [])))))

-- The text, without its NUL.
unfoldable pub state_unparse : User → State → Bytes
unfolding unparse_fields
state_unparse user state = b'5' ∷ colon ∷ (user.username ++ colon ∷ unparse_fields state)
