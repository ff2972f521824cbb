-- ===== src/Ldap/Entry.antt =====
-- userops/ldap.c: the attributes of an entry.
use otpd.Base.{if◌then◌else◌, Option, none, some, List, [], ◌∷◌, Bytes, bytes_eq, drop}

-- The values by the names behind "otp", as C strings.
pub record Attributes : Type 0 where
  pub vendor : Option Bytes
  pub model : Option Bytes
  pub key1 : Option Bytes
  pub ipin : Option Bytes
  pub pin : Option Bytes
  pub time_issued : Option Bytes
  pub state_location_hint : Option Bytes
  pub key_encryption : Option Bytes
  pub tmp_static_password : Option Bytes
  pub tmp_static_password_expiry : Option Bytes
  pub tmp_rwindow : Option Bytes
  pub tmp_rwindow_expiry : Option Bytes

abbrev pub no_attributes : Attributes
no_attributes = record {
  vendor = none;
  model = none;
  key1 = none;
  ipin = none;
  pin = none;
  time_issued = none;
  state_location_hint = none;
  key_encryption = none;
  tmp_static_password = none;
  tmp_static_password_expiry = none;
  tmp_rwindow = none;
  tmp_rwindow_expiry = none;
}

-- An attribute as libldap gives it: its name, and its values, if there are any.
abbrev pub Attribute : Type 0
Attribute = Bytes × Option (List Bytes)

abbrev pub vendor_name : Bytes
vendor_name = b'V' ∷ b'e' ∷ b'n' ∷ b'd' ∷ b'o' ∷ b'r' ∷ []

abbrev pub model_name : Bytes
model_name = b'M' ∷ b'o' ∷ b'd' ∷ b'e' ∷ b'l' ∷ []

abbrev pub key1_name : Bytes
key1_name = b'K' ∷ b'e' ∷ b'y' ∷ b'1' ∷ []

abbrev pub ipin_name : Bytes
ipin_name = b'I' ∷ b'P' ∷ b'I' ∷ b'N' ∷ []

abbrev pub pin_name : Bytes
pin_name = b'P' ∷ b'I' ∷ b'N' ∷ []

abbrev pub time_issued_name : Bytes
time_issued_name = b'T' ∷ b'i' ∷ b'm' ∷ b'e' ∷ b'I' ∷ b's' ∷ b's' ∷ b'u' ∷ b'e' ∷ b'd' ∷ []

abbrev pub state_location_hint_name : Bytes
state_location_hint_name =
    b'S' ∷ b't' ∷ b'a' ∷ b't' ∷ b'e' ∷ b'L' ∷ b'o' ∷ b'c' ∷ b'a' ∷ b't' ∷ b'i' ∷ b'o' ∷ b'n' ∷ b'H'
    ∷ b'i' ∷ b'n' ∷ b't' ∷ []

abbrev pub key_encryption_name : Bytes
key_encryption_name =
    b'K' ∷ b'e' ∷ b'y' ∷ b'E' ∷ b'n' ∷ b'c' ∷ b'r' ∷ b'y' ∷ b'p' ∷ b't' ∷ b'i' ∷ b'o' ∷ b'n' ∷ []

abbrev pub tmp_static_password_name : Bytes
tmp_static_password_name =
    b'T' ∷ b'm' ∷ b'p' ∷ b'S' ∷ b't' ∷ b'a' ∷ b't' ∷ b'i' ∷ b'c' ∷ b'P' ∷ b'a' ∷ b's' ∷ b's' ∷ b'w'
    ∷ b'o' ∷ b'r' ∷ b'd' ∷ []

abbrev pub tmp_static_password_expiry_name : Bytes
tmp_static_password_expiry_name =
    b'T' ∷ b'm' ∷ b'p' ∷ b'S' ∷ b't' ∷ b'a' ∷ b't' ∷ b'i' ∷ b'c' ∷ b'P' ∷ b'a' ∷ b's' ∷ b's' ∷ b'w'
    ∷ b'o' ∷ b'r' ∷ b'd' ∷ b'E' ∷ b'x' ∷ b'p' ∷ b'i' ∷ b'r' ∷ b'y' ∷ []

abbrev pub tmp_rwindow_name : Bytes
tmp_rwindow_name = b'T' ∷ b'm' ∷ b'p' ∷ b'R' ∷ b'W' ∷ b'i' ∷ b'n' ∷ b'd' ∷ b'o' ∷ b'w' ∷ []

abbrev pub tmp_rwindow_expiry_name : Bytes
tmp_rwindow_expiry_name =
    b'T' ∷ b'm' ∷ b'p' ∷ b'R' ∷ b'W' ∷ b'i' ∷ b'n' ∷ b'd' ∷ b'o' ∷ b'w' ∷ b'E' ∷ b'x' ∷ b'p' ∷ b'i'
    ∷ b'r' ∷ b'y' ∷ []

-- The chain of strcmp(&a[3], ...); another name is an error.
unfoldable pub set_attribute : Bytes → Bytes → Attributes → Option Attributes
unfolding bytes_eq
set_attribute name v attrs =
    if bytes_eq name vendor_name
    then some (record attrs { vendor = some v })
    else if bytes_eq name model_name
    then some (record attrs { model = some v })
    else if bytes_eq name key1_name
    then some (record attrs { key1 = some v })
    else if bytes_eq name ipin_name
    then some (record attrs { ipin = some v })
    else if bytes_eq name pin_name
    then some (record attrs { pin = some v })
    else if bytes_eq name time_issued_name
    then some (record attrs { time_issued = some v })
    else if bytes_eq name state_location_hint_name
    then some (record attrs { state_location_hint = some v })
    else if bytes_eq name key_encryption_name
    then some (record attrs { key_encryption = some v })
    else if bytes_eq name tmp_static_password_name
    then some (record attrs { tmp_static_password = some v })
    else if bytes_eq name tmp_static_password_expiry_name
    then some (record attrs { tmp_static_password_expiry = some v })
    else if bytes_eq name tmp_rwindow_name
    then some (record attrs { tmp_rwindow = some v })
    else if bytes_eq name tmp_rwindow_expiry_name
    then some (record attrs { tmp_rwindow_expiry = some v })
    else none

-- The loop over the attributes: each has one value.
unfoldable pub extract : List Attribute → Attributes → Option Attributes
unfolding set_attribute
extract [] attrs = some attrs
extract ((name, some (v ∷ [])) ∷ rest) attrs = elim (set_attribute (drop 3 name) v attrs) [
  | none ↦ none
  | some later ↦ extract rest later
]
extract (_ ∷ rest) attrs = none
