-- ===== src/Store/Text/Laws.antt =====
-- state.c: a state that state_unparse() writes, state_parse() reads back.
use otpd.Base.{
  ℕ, ◌+◌, ◌/◌, ◌%◌, ◌^◌, ◌≤◌, ◌<◌, ◌≡◌, refl, ap, ap₂, ◌∙◌, true, false, some, [], ◌∷◌, ◌++◌, ◌==◌,
  ltb, arith, length, take, drop, Bytes, All, IsByte, cstr, memcpy, length-take, length-append,
  strchr-append, strip_prefix, strip_prefix-append, Without,
}
use otpd.Otp.{User, State}
use otpd.Stdio.{print_hex}
use otpd.Stdio.Laws.{IsHex, print_hex-IsHex, scan_hex-print_hex}
use otpd.Xfunc.{is_xdigit, x2a, x2a_hex_conversion}
use otpd.Xfunc.Laws.{is_xdigit-hex, length-x2a, a2x-x2a}
use otpd.Store.Text.{
  ◌>>=◌, colon, parse_challenge, bounded, parse_fields, parse_text, state_parse, unparse_fields,
  state_unparse,
}

-- Characters that a field may have: no NUL and no colon.
abbrev pub Field : Bytes → Type 0
Field s = Without 0 s × Without colon s

All-append : (P : ℕ → Type 0) (s t : Bytes) → All P s → All P t → All P (s ++ t)
All-append P [] t h g = g
All-append P (a ∷ s) t h g = (h.0, All-append P s t h.1 g)

cstr-nul : (s : Bytes) → Without 0 s → cstr (s ++ 0 ∷ []) ≡ s
unfolding cstr
cstr-nul [] h = refl
cstr-nul (a ∷ s) h = rw (h.0, cstr-nul s h.1)

xdigit-field : (c : ℕ) → is_xdigit c ≡ true → ((c == 0) ≡ false) × ((c == colon) ≡ false)
unfolding is_xdigit
xdigit-field c h = (ground arith, ground arith)

IsHex-Field : (s : Bytes) → IsHex s → Field s
IsHex-Field [] h = (tt, tt)
IsHex-Field (c ∷ s) h =
    let (nul, col) = xdigit-field c h.0 in
    let (nuls, cols) = IsHex-Field s h.1 in ((nul, nuls), (col, cols))

x2a-IsHex : (x : Bytes) → IsHex (x2a x x2a_hex_conversion)
unfolding x2a
x2a-IsHex [] = tt
x2a-IsHex (x ∷ xs) = (
  is_xdigit-hex (x / 16 % 16) (omega arith),
  (is_xdigit-hex (x % 16) (omega arith), x2a-IsHex xs),
)

bounded_lem : (max : ℕ) (s : Bytes) → length s ≤ max → bounded max s ≡ some s
unfolding bounded
bounded_lem max s h = ground arith

-- A state whose text the parser accepts: what the arrays hold, and no colon in a field.
pub record IsPrintable (user : User) (state : State) : Type 0 where
  pub username : Without 0 user.username
  pub csd : Field state.csd
  pub csd_len : length state.csd ≤ 63
  pub rd : Field state.rd
  pub rd_len : length state.rd ≤ 31
  pub clen : state.clen ≤ 16
  pub octets : All IsByte (take state.clen state.challenge)
  pub filled : state.clen ≤ length state.challenge
  pub failcount : state.failcount < 2 ^ 32
  pub authtime : state.authtime < 2 ^ 32
  pub mincardtime : state.mincardtime < 2 ^ 32

-- What the parser makes of a blank state.
abbrev pub restored : State → State → State
restored blank state = record blank {
  nullstate = false;
  challenge = memcpy blank.challenge state.challenge state.clen;
  clen = state.clen;
  csd = state.csd;
  rd = state.rd;
  failcount = state.failcount;
  authtime = state.authtime;
  mincardtime = state.mincardtime;
}

take-length : (x : Bytes) → take (length x) x ≡ x
take-length [] = refl
take-length (a ∷ x) = ap (λ y. a ∷ y) (take-length x)

-- The challenge's octets are read into the array.
challenge_lem :
    (x : Bytes) (blank : State)
    → length x ≤ 16
    → All IsByte x
    → parse_challenge (x2a x x2a_hex_conversion) blank
      ≡ some (record blank { challenge = memcpy blank.challenge x (length x); clen = length x })
unfolding parse_challenge
challenge_lem x blank short bytes =
    let len = length-x2a x x2a_hex_conversion in
    let fits : ltb 32 (length (x2a x x2a_hex_conversion)) ≡ false = ground (arith, len) in
    let even : (length (x2a x x2a_hex_conversion) % 2 == 1) ≡ false = ground (arith, len) in
    rw (fits, even)
      (ap
        (λ r. r >>= λ y.
          some (record blank { challenge = memcpy blank.challenge y (length y); clen = length y }))
        (a2x-x2a x bytes))

module _ (user : User) (state : State) (ok : IsPrintable user state) where
  abbrev octets : Bytes
  octets = take state.clen state.challenge

  length-octets : length octets ≡ state.clen
  length-octets = omega (arith, length-take state.clen state.challenge, ok.filled)

  copied : (old : Bytes) → memcpy old octets (length octets) ≡ memcpy old state.challenge state.clen
  copied old =
      ap (λ y. y ++ drop (length octets) old) (take-length octets)
      ∙ ap (λ n. octets ++ drop n old) length-octets

  octets_lem :
      (blank : State)
      → parse_challenge (x2a octets x2a_hex_conversion) blank
        ≡ some (record blank {
          challenge = memcpy blank.challenge state.challenge state.clen;
          clen = state.clen;
        })
  octets_lem blank =
      challenge_lem octets blank (omega (arith, length-octets, ok.clen)) ok.octets
      ∙ ap₂ (λ c n. some (record blank { challenge = c; clen = n })) (copied blank.challenge)
          length-octets

  hex_field : (s : Bytes) → IsHex s → Without colon s
  hex_field s h = (IsHex-Field s h).1

  fields_lem :
      (blank : State)
      → parse_fields (unparse_fields state) blank
        ≡ some (record (restored blank state) { nullstate = blank.nullstate })
  unfolding parse_fields unparse_fields
  fields_lem blank =
      rw
        (
          strchr-append colon (x2a octets x2a_hex_conversion) _ (hex_field _ (x2a-IsHex octets)),
          octets_lem blank,
          strchr-append colon state.csd _ ok.csd.1,
          bounded_lem 63 state.csd ok.csd_len,
          strchr-append colon state.rd _ ok.rd.1,
          bounded_lem 31 state.rd ok.rd_len,
          strchr-append colon (print_hex state.failcount) _
              (hex_field _ (print_hex-IsHex state.failcount ok.failcount)),
          scan_hex-print_hex state.failcount ok.failcount,
          strchr-append colon (print_hex state.authtime) _
              (hex_field _ (print_hex-IsHex state.authtime ok.authtime)),
          scan_hex-print_hex state.authtime ok.authtime,
          strchr-append colon (print_hex state.mincardtime) []
              (hex_field _ (print_hex-IsHex state.mincardtime ok.mincardtime)),
          scan_hex-print_hex state.mincardtime ok.mincardtime,
        )
        refl

  text_lem :
      (blank : State)
      → parse_text (state_unparse user state) user.username blank
        ≡ some (record (restored blank state) { nullstate = blank.nullstate })
  unfolding parse_text state_unparse strip_prefix
  text_lem blank =
      rw (strip_prefix-append user.username (colon ∷ unparse_fields state)) (fields_lem blank)

  hex_nul : (s : Bytes) → IsHex s → Without 0 s
  hex_nul s h = (IsHex-Field s h).0

  unparse-nul : Without 0 (state_unparse user state)
  unfolding state_unparse unparse_fields
  unparse-nul = (
    refl,
    (
      refl,
      All-append _ user.username _ ok.username (
        refl,
        All-append _ (x2a octets x2a_hex_conversion) _ (hex_nul _ (x2a-IsHex octets)) (
          refl,
          All-append _ state.csd _ ok.csd.0 (
            refl,
            All-append _ state.rd _ ok.rd.0 (
              refl,
              All-append _ (print_hex state.failcount) _
                  (hex_nul _ (print_hex-IsHex state.failcount ok.failcount))
                  (
                    refl,
                    All-append _ (print_hex state.authtime) _
                        (hex_nul _ (print_hex-IsHex state.authtime ok.authtime))
                        (
                          refl,
                          All-append _ (print_hex state.mincardtime) _
                              (hex_nul _ (print_hex-IsHex state.mincardtime ok.mincardtime))
                              (refl, tt),
                        ),
                  ),
            ),
          ),
        ),
      ),
    ),
  )

  unfoldable buffer : Bytes
  buffer = state_unparse user state ++ 0 ∷ []

  buffer-long : 4 + length user.username ≤ length buffer
  unfolding buffer state_unparse
  buffer-long = omega (
    arith,
    length-append (state_unparse user state) (0 ∷ []),
    length-append user.username (colon ∷ unparse_fields state),
  )

  -- What state_unparse() writes of a state, with its NUL, state_parse() reads back into any state:
  -- the fields of the text are the written ones, the null flag is clear, and the rest stays. The
  -- fields hold no colon and no NUL, fit their arrays, and the numbers are below 2^32.
  pub state_parse-state_unparse :
      (blank : State)
      → state_parse (state_unparse user state ++ 0 ∷ []) user.username blank
        ≡ some (restored blank state)
  unfolding state_parse buffer
  state_parse-state_unparse blank =
      let some_text : (length buffer == 0) ≡ false = ground (arith, buffer-long) in
      let enough : ltb (length buffer) (4 + length user.username) ≡ false =
        ground (arith, buffer-long) in
      rw (some_text, enough, cstr-nul (state_unparse user state) unparse-nul)
        (text_lem (record blank { nullstate = false }))
