-- ===== src/Ldap.antt =====
-- userops/ldap.c: a user's entry in the directory. The calls of libldap are not here: what a search
-- gives is data.
pub mod Entry
pub mod Timeout
pub mod Laws
use otpd.Base.{
  ℕ, ◌+◌, ◌-◌, ◌*◌, ◌%◌, ◌^◌, Bool, true, false, not, ◌&&◌, ◌||◌, if◌then◌else◌, ltb, leb, ◌==◌,
  Option, none, some, List, [], ◌∷◌, ◌++◌, Bytes, bytes_eq, length, drop,
}
use otpd.Otp.{User, EncryptMode, u32}
use otpd.Stdio.{skip_space, sign}
use otpd.Xfunc.{a2nx}
use otpd.Verify.Setup.{begins, md5_tag, sha_tag}
use otpd.Verify.Session.{UserLookup, found, not_found, unavailable}
use otpd.Ldap.Entry.{Attributes, Attribute, no_attributes, extract}

-- A step gives a value, ends with -2, or reads memory that is not there.
pub data Step {ℓ} (A : Type ℓ) : Type ℓ where
  given : A → Step A
  fails : Step A
  undefined : Step A

infixl 5 ◌>>=◌
abbrev pub ◌>>=◌ {ℓ κ} : {A : Type ℓ} {B : Type κ} → Step A → (A → Step B) → Step B
given a >>= f = f a
fails >>= f = fails
undefined >>= f = undefined

abbrev pub fail_if {ℓ} : {A : Type ℓ} → Bool → Step A → Step A
fail_if true k = fails
fail_if false k = k

-- The settings that are read here, and whether strtoul() sets EINVAL for a text without digits, which
-- is left to the library.
pub record Keys : Type 0 where
  pub nkeys : ℕ
  pub has_key : ℕ → Bool
  pub einval : Bool

unfoldable pub is_digit : ℕ → Bool
is_digit c = not (ltb c b'0') && not (ltb b'9' c)

unfoldable pub scan_decimal : ℕ → Bytes → ℕ
unfolding is_digit
scan_decimal v [] = v
scan_decimal v (c ∷ s) =
    let rest = scan_decimal (v * 10 + (c - b'0')) s in if is_digit c then rest else v

-- strtoul(s, NULL, 10), on 64 bits.
unfoldable pub strtoul : Bytes → ℕ
unfolding skip_space sign scan_decimal
strtoul s =
    let (negative, digits) = sign (skip_space s) in
    let v = scan_decimal 0 digits in
    if leb (2 ^ 64) v then 2 ^ 64 - 1 else if negative then (2 ^ 64 - v) % 2 ^ 64 else v

-- `(time_t) strtoul(...) < now`, where time_t has 64 bits and a sign.
unfoldable pub expired : ℕ → Bytes → Bool
unfolding strtoul
expired now s = leb (2 ^ 63) (strtoul s) || ltb (strtoul s) now

-- The vendor, the model and the key, which an entry has to have.
unfoldable pub required : Option Bytes → Option Bytes → Option Bytes → Step (Bytes × Bytes × Bytes)
required (some vendor) (some model) (some key) = given (vendor, model, key)
required _ _ _ = fails

-- A PIN of at most 32 digits and an even number of them, if there is one.
unfoldable pub bad_pin : Option Bytes → Bool
bad_pin none = false
bad_pin (some pin) = ltb 32 (length pin) || length pin % 2 == 1

unfoldable pub bad_location : Option Bytes → Bool
bad_location none = false
bad_location (some location) = ltb 32 (length location)

unfoldable pub all_digits : Bytes → Bool
unfolding is_digit
all_digits [] = true
all_digits (c ∷ s) = is_digit c && all_digits s

-- "clear", "pin" and "pin-md5"
abbrev pub clear_text : Bytes
clear_text = b'c' ∷ b'l' ∷ b'e' ∷ b'a' ∷ b'r' ∷ []

abbrev pub pin_text : Bytes
pin_text = b'p' ∷ b'i' ∷ b'n' ∷ []

abbrev pub pin_md5_text : Bytes
pin_md5_text = b'p' ∷ b'i' ∷ b'n' ∷ b'-' ∷ b'm' ∷ b'd' ∷ b'5' ∷ []

-- A key that is named by its number.
unfoldable pub numbered : Keys → Bytes → Step (EncryptMode × ℕ)
unfolding all_digits strtoul
numbered keys s =
    if not (all_digits s)
    then fails
    else if strtoul s == 0 && (keys.einval && length s == 0)
    then fails
    else if ltb (strtoul s) keys.nkeys && keys.has_key (strtoul s)
    then given (EncryptMode.keyid, strtoul s)
    else fails

-- otpKeyEncryption
unfoldable pub key_encryption : Keys → Option Bytes → Step (EncryptMode × ℕ)
unfolding bytes_eq numbered
key_encryption keys none = given (EncryptMode.clear, 0)
key_encryption keys (some s) =
    if bytes_eq s clear_text
    then given (EncryptMode.clear, 0)
    else if bytes_eq s pin_text
    then given (EncryptMode.pin, 0)
    else if bytes_eq s pin_md5_text
    then given (EncryptMode.pinmd5, 0)
    else numbered keys s

-- `h` with a digest of `n` octets in front, from 2 * n digits.
unfoldable pub digest_of : ℕ → Bytes → Bytes → Step Bytes
unfolding a2nx
digest_of n p h =
    if not (length p == 2 * n)
    then fails
    else elim (a2nx p n) [ none ↦ fails | some d ↦ given (d ++ drop n h) ]

-- "{SHA1}"
abbrev pub sha1_tag : Bytes
sha1_tag = b'{' ∷ b'S' ∷ b'H' ∷ b'A' ∷ b'1' ∷ b'}' ∷ []

-- "{MD5}" and "{SHA}", with the brace that verify() does not test.
abbrev pub md5_prefix : Bytes
md5_prefix = md5_tag ++ b'}' ∷ []

abbrev pub sha_prefix : Bytes
sha_prefix = sha_tag ++ b'}' ∷ []

-- What stands `n` octets on: a shorter text ends before.
unfoldable pub behind : ℕ → Bytes → Step Bytes
behind n p = if ltb (length p) n then undefined else given (drop n p)

-- The hash of a password that begins with a brace. The strncmp() tests stand as they are written: they
-- hold where the tag is not there.
unfoldable pub tagged : Bytes → Bytes → Step Bytes
unfolding begins behind digest_of
tagged p h =
    if not (begins md5_prefix p)
    then (behind 5 p >>= λ s. digest_of 16 s h)
    else if not (begins sha_prefix p)
    then (behind 5 p >>= λ s. digest_of 20 s h)
    else if not (begins sha1_tag p)
    then (behind 6 p >>= λ s. digest_of 20 s h)
    else fails

-- `h` for a password: what it held before, if the password is not encoded.
unfoldable pub password_hash : Bytes → Bytes → Step Bytes
unfolding tagged
password_hash [] h = given h
password_hash (c ∷ p) h = if c == b'{' then tagged (c ∷ p) h else given h

-- otpTmpStaticPassword, where it has an expiry that is not past.
unfoldable pub tmp_password :
    ℕ → Bytes → Option Bytes → Option Bytes → Step (Option (Bytes × Bytes))
unfolding expired password_hash
tmp_password now h none expiry = given none
tmp_password now h (some p) none = fails
tmp_password now h (some p) (some e) =
    if expired now e then given none else (password_hash p h >>= λ d. given (some (p, d)))

-- otpTmpRWindow. The test for its expiry asks for the window again, so that a missing expiry is read.
unfoldable pub rwindow : ℕ → Option Bytes → Option Bytes → Step ℕ
unfolding expired strtoul
rwindow now none expiry = given 0
rwindow now (some w) none = undefined
rwindow now (some w) (some e) = given (if expired now e then 0 else u32 (strtoul w))

abbrev pub text_or_empty : Option Bytes → Bytes
text_or_empty none = []
text_or_empty (some s) = s

abbrev pub hash_or : Bytes → Option (Bytes × Bytes) → Bytes
hash_or old none = old
hash_or old (some (p, d)) = d

-- The user, in memory that xmalloc() gave.
unfoldable pub copied :
    User
    → Bytes
    → Attributes
    → Bytes × Bytes × Bytes
    → EncryptMode × ℕ
    → Option (Bytes × Bytes)
    → ℕ
    → User
copied fresh username attrs (vendor, model, key) (mode, keyid) password window = record fresh {
  username = username;
  card = vendor ++ b'-' ∷ model;
  keystring = key;
  pinstring = text_or_empty attrs.pin;
  gsmd = text_or_empty attrs.state_location_hint;
  encryptmode = mode;
  keyid = keyid;
  password = elim password [ none ↦ none | some w ↦ some w.0 ];
  password_hash = hash_or fresh.password_hash password;
  rwindow_size = window;
}

-- From the sanity checks on; `h` is what the array for the hash holds.
unfoldable pub user_of : Keys → ℕ → Bytes → User → Bytes → Attributes → Step User
unfolding required bad_pin bad_location key_encryption tmp_password rwindow copied
user_of keys now h fresh username attrs = required attrs.vendor attrs.model attrs.key1 >>= λ r.
    fail_if (ltb 31 (length r.0 + 1 + length r.1)) (
      fail_if (ltb 512 (length r.2)) (
        fail_if (length r.2 == 0 || length r.2 % 2 == 1) (
          fail_if (bad_pin attrs.ipin) (
            fail_if (bad_pin attrs.pin) (
              fail_if (bad_location attrs.state_location_hint) (
                key_encryption keys attrs.key_encryption >>= λ mode.
                tmp_password now h attrs.tmp_static_password attrs.tmp_static_password_expiry
                >>= λ password. rwindow now attrs.tmp_rwindow attrs.tmp_rwindow_expiry >>= λ window.
                    given (copied fresh username attrs r mode password window)))))))

-- What ldap_get() returns for the entries that a search gave: there has to be one.
pub data LdapLookup : Type 0 where
  looked_up : UserLookup → LdapLookup
  crashes : LdapLookup

unfoldable pub looked : Step User → LdapLookup
looked (given user) = looked_up (found user)
looked fails = looked_up unavailable
looked undefined = crashes

unfoldable pub attributes_of : Keys → ℕ → Bytes → User → Bytes → Option Attributes → LdapLookup
unfolding looked user_of
attributes_of keys now h fresh username none = looked_up unavailable
attributes_of keys now h fresh username (some attrs) =
    looked (user_of keys now h fresh username attrs)

unfoldable pub one_entry : Keys → ℕ → Bytes → User → Bytes → List (List Attribute) → LdapLookup
unfolding attributes_of extract
one_entry keys now h fresh username [] = looked_up not_found
one_entry keys now h fresh username (entry ∷ []) =
    attributes_of keys now h fresh username (extract entry no_attributes)
one_entry keys now h fresh username (_ ∷ _ ∷ _) = looked_up unavailable
