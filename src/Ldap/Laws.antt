-- ===== src/Ldap/Laws.antt =====
-- userops/ldap.c: what every user from the directory satisfies, and a password that is never taken.
use otpd.Base.{
  ltb→lt, ℕ, ◌+◌, ◌%◌, ◌≤◌, ◌<◌, ◌≡◌, refl, ap, subst, arith, Bool, true, false, not, ◌&&◌, ◌||◌,
  ltb, ◌==◌, if◌then◌else◌, Option, none, some, ◌∷◌, ◌++◌, Bytes, bytes_eq, length, length-append,
}
use otpd.Otp.{User, EncryptMode}
use otpd.Ldap.Entry.{Attributes}
use otpd.Ldap.{
  clear_text, pin_text, pin_md5_text, all_digits, Step, given, fails, undefined, ◌>>=◌, fail_if,
  Keys, strtoul, required, bad_pin, bad_location, numbered, key_encryption, tmp_password, rwindow,
  text_or_empty, copied, user_of,
}

-- A step that gives a value came through each of its parts.
>>=-given :
    {A B : Type 0} (m : Step A) (f : A → Step B) {b : B}
    → (m >>= f) ≡ given b
    → (a : A) × (m ≡ given a) × (f a ≡ given b)
>>=-given (given a) f e = (a, refl, e)
>>=-given fails f e = absurd cc
>>=-given undefined f e = absurd cc

fail_if-given :
    {A : Type 0} (t : Bool) (k : Step A) {a : A}
    → fail_if t k ≡ given a
    → (t ≡ false) × (k ≡ given a)
fail_if-given true k e = absurd cc
fail_if-given false k e = (refl, e)

-- The arrays of `user_t` hold its texts, the digits of the key are in pairs, and a key that is named
-- by its number is configured.
pub record IsLdapUser (keys : Keys) (user : User) : Type 0 where
  pub card : length user.card ≤ 31
  pub key :
      (0 < length user.keystring) × (length user.keystring ≤ 512) × (length user.keystring % 2 ≡ 0)
  pub pin : (length user.pinstring ≤ 32) × (length user.pinstring % 2 ≡ 0)
  pub gsmd : length user.gsmd ≤ 32
  pub keyid :
      user.encryptmode ≡ EncryptMode.keyid
      → (user.keyid < keys.nkeys) × (keys.has_key user.keyid ≡ true)

pin_fits :
    (pin : Option Bytes)
    → bad_pin pin ≡ false
    → (length (text_or_empty pin) ≤ 32) × (length (text_or_empty pin) % 2 ≡ 0)
unfolding bad_pin
pin_fits none e = (omega arith, refl)
pin_fits (some pin) e = ground (arith, e)

location_fits : (s : Option Bytes) → bad_location s ≡ false → length (text_or_empty s) ≤ 32
unfolding bad_location
location_fits none e = omega arith
location_fits (some s) e = ground (arith, e)

key_fits :
    (key : Bytes)
    → ltb 512 (length key) ≡ false
    → (length key == 0 || length key % 2 == 1) ≡ false
    → (0 < length key) × (length key ≤ 512) × (length key % 2 ≡ 0)
key_fits key short pairs = ground (arith, short, pairs)

card_fits :
    (vendor model : Bytes)
    → ltb 31 (length vendor + 1 + length model) ≡ false
    → length (vendor ++ b'-' ∷ model) ≤ 31
card_fits vendor model e = ground (arith, e, length-append vendor (b'-' ∷ model))

abbrev Configured : Keys → Step (EncryptMode × ℕ) → Type 0
Configured keys (given (EncryptMode.keyid, id)) = (id < keys.nkeys) × (keys.has_key id ≡ true)
Configured keys _ = Unit

configured_if :
    (keys : Keys) (b : Bool) (v w : Step (EncryptMode × ℕ))
    → (b ≡ true → Configured keys v)
    → Configured keys w
    → Configured keys (if b then v else w)
configured_if keys true v w p q = p refl
configured_if keys false v w p q = q

both : (a b : Bool) → (a && b) ≡ true → (a ≡ true) × (b ≡ true)
both true true e = (refl, refl)
both true false e = absurd cc
both false b e = absurd cc

numbered-Configured : (keys : Keys) (s : Bytes) → Configured keys (numbered keys s)
unfolding numbered
numbered-Configured keys s =
    configured_if keys (not (all_digits s)) _ _ (λ e. tt)
      (configured_if keys (strtoul s == 0 && (keys.einval && length s == 0)) _ _ (λ e. tt)
        (configured_if keys (ltb (strtoul s) keys.nkeys && keys.has_key (strtoul s)) _ _
          (λ e.
            let (below, has) = both (ltb (strtoul s) keys.nkeys) (keys.has_key (strtoul s)) e in
            (ltb→lt (strtoul s) keys.nkeys below, has))
          tt))

key_encryption-Configured :
    (keys : Keys) (s : Option Bytes) → Configured keys (key_encryption keys s)
unfolding key_encryption
key_encryption-Configured keys none = tt
key_encryption-Configured keys (some s) =
    configured_if keys (bytes_eq s clear_text) _ _ (λ e. tt)
      (configured_if keys (bytes_eq s pin_text) _ _ (λ e. tt)
        (configured_if keys (bytes_eq s pin_md5_text) _ _ (λ e. tt) (numbered-Configured keys s)))

mode_configured :
    (keys : Keys) (mode : EncryptMode) (id : ℕ)
    → Configured keys (given (mode, id))
    → mode ≡ EncryptMode.keyid
    → (id < keys.nkeys) × (keys.has_key id ≡ true)
mode_configured keys EncryptMode.keyid id c e = c
mode_configured keys EncryptMode.clear id c e = absurd cc
mode_configured keys EncryptMode.pin id c e = absurd cc
mode_configured keys EncryptMode.pinmd5 id c e = absurd cc

given-injective : {A : Type 0} {x y : A} → given x ≡ given y → x ≡ y
given-injective {x = x} e = ap (λ o. elim o [ given a ↦ a | fails ↦ x | undefined ↦ x ]) e

-- A user that the directory gives has a card's name, a PIN and a state manager's name that fit their
-- arrays, a key of at most 512 digits, which are in pairs and not none, and, where the key is encrypted
-- by a key with a number, a number that is configured.
pub user_of-IsLdapUser :
    (keys : Keys) (now : ℕ) (h : Bytes) (fresh user : User) (username : Bytes) (attrs : Attributes)
    → user_of keys now h fresh username attrs ≡ given user
    → IsLdapUser keys user
unfolding user_of copied
user_of-IsLdapUser keys now h fresh user username attrs e =
    let (r, e₀, e₁) = >>=-given (required attrs.vendor attrs.model attrs.key1) _ e in
    let (card, e₂) = fail_if-given (ltb 31 (length r.0 + 1 + length r.1)) _ e₁ in
    let (short, e₃) = fail_if-given (ltb 512 (length r.2)) _ e₂ in
    let (pairs, e₄) = fail_if-given (length r.2 == 0 || length r.2 % 2 == 1) _ e₃ in
    let (ipin, e₅) = fail_if-given (bad_pin attrs.ipin) _ e₄ in
    let (pin, e₆) = fail_if-given (bad_pin attrs.pin) _ e₅ in
    let (location, e₇) = fail_if-given (bad_location attrs.state_location_hint) _ e₆ in
    let (mode, em, e₈) = >>=-given (key_encryption keys attrs.key_encryption) _ e₇ in
    let (password, ep, e₉) =
      >>=-given (tmp_password now h attrs.tmp_static_password attrs.tmp_static_password_expiry) _
        e₈ in
    let (window, ew, last) =
      >>=-given (rwindow now attrs.tmp_rwindow attrs.tmp_rwindow_expiry) _ e₉ in
    subst (IsLdapUser keys) (given-injective last) (record {
      card = card_fits r.0 r.1 card;
      key = key_fits r.2 short pairs;
      pin = pin_fits attrs.pin pin;
      gsmd = location_fits attrs.state_location_hint location;
      keyid =
          mode_configured keys mode.0 mode.1
            (subst (Configured keys) em (key_encryption-Configured keys attrs.key_encryption));
    })
