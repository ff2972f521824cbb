-- ===== src/Tests/Directories.antt =====
-- userops/ldap.c: the theorems at concrete inputs.
use otpd.Base.{◌*◌, ◌≡◌, refl, true, some, [], ◌∷◌, arith, replicate}
use otpd.Otp.{User, EncryptMode}
use otpd.Ldap.Entry.{Attributes, no_attributes}
use otpd.Ldap.{Keys, given, user_of}
use otpd.Ldap.Laws.{IsLdapUser, user_of-IsLdapUser}
use otpd.Ldap.Timeout.{Timeval, update_timeout, update_timeout-lost}
use otpd.Tests.{user}

abbrev keys : Keys
keys = record { nkeys = 3; has_key = λ id. true; einval = true }

-- The card "a-b", with a key that is encrypted by the key of number 2.
abbrev attrs : Attributes
attrs = record no_attributes {
  vendor = some (b'a' ∷ []);
  model = some (b'b' ∷ []);
  key1 = some (replicate 32 b'0');
  key_encryption = some (b'2' ∷ []);
}

abbrev from_directory : User
from_directory = record user {
  card = b'a' ∷ b'-' ∷ b'b' ∷ [];
  encryptmode = EncryptMode.keyid;
  keyid = 2;
}

entry_run : user_of keys 1000 [] user user.username attrs ≡ given from_directory
unfolding user_of
entry_run = refl

user_of-IsLdapUser_example : IsLdapUser keys from_directory
user_of-IsLdapUser_example =
    user_of-IsLdapUser keys 1000 [] user from_directory user.username attrs entry_run

abbrev two_seconds : Timeval
two_seconds = record { sec = 2; usec = 0 }

update_timeout-lost_example : update_timeout two_seconds (999 * 1000000) ≡ some two_seconds
update_timeout-lost_example = update_timeout-lost two_seconds 999 (omega arith)
