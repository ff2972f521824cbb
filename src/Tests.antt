-- ===== src/Tests.antt =====
-- otp.c and the cards at concrete inputs: a user with a six digit HOTP token.
pub mod Cards
pub mod Verifying
pub mod Tokens
pub mod Chains
pub mod Locks
pub mod Files
pub mod Ciphers
pub mod Managers
pub mod Monitors
pub mod Works
pub mod Passwords
pub mod Fetches
pub mod Resyncs
pub mod Sessions
pub mod Clients
pub mod Directories
use otpd.Base.{
  ℕ, ◌+◌, Bool, true, false, Option, none, some, List, [], ◌∷◌, ◌++◌, Bytes, take, drop, replicate,
}
use otpd.Crypto.{Crypto}
use otpd.Helix.{Scontext, helix_magic}
use otpd.Otp.{
  Chap, Pwe, pap, Request, Reply, Config, User, State, EncryptMode, StateMode, Rc, auth_err,
}
use otpd.Cardops.{Cardops}
use otpd.Card.Counter.{counter_bytes}
use otpd.Card.Hotp.{hotp_cardops, hotp_d}
use otpd.Verify.Frame.{Times}
use otpd.Verify.Session.{UserLookup, found, Userops, StateOps, blank_state}

-- Digests that keep their input, and an HMAC whose value is the low half of its message.
abbrev pub toy_crypto : Crypto
toy_crypto = record {
  md4 = λ m. m;
  md5 = λ m. m;
  sha1 = λ m. m;
  hmac_sha1 = λ key m. some (drop 4 m ++ replicate 16 0);
  des_ecb_encrypt = λ key block. block;
  des_cbc_encrypt = λ key text. some (take 8 text);
}

abbrev pub toy_cipher : Scontext
toy_cipher = record { magic = helix_magic; l = 16; k = replicate 8 77; x0 = replicate 8 77 }

abbrev pub modules : List Cardops
modules = hotp_cardops toy_crypto ∷ []

abbrev pub config : Config
config = record {
  hardfail = 10;
  softfail = 3;
  timeout = 2000000000;
  prepend_pin = true;
  ewindow_size = 5;
  rwindow_size = 0;
  site_transform = false;
  key = λ id. [];
  mode = StateMode.local;
  file_encryptmode = EncryptMode.clear;
  file_keyid = 0;
  file_gsmd = [];
}

abbrev pub user : User
user = record {
  username = b'j' ∷ b'o' ∷ b'e' ∷ [];
  card = hotp_d b'6';
  featuremask = 0;
  keystring = replicate 32 b'0';
  key = [];
  pinstring = [];
  pin = [];
  gsmd = [];
  keyid = 0;
  encryptmode = EncryptMode.clear;
  password = none;
  password_hash = [];
  rwindow_size = 0;
}

-- The user once the card and the key are read.
abbrev pub ready_user : User
ready_user = record user { featuremask = 100; key = replicate 16 0 }

-- A state at counter 7 with a number of failures.
abbrev pub state : ℕ → State
state failures = record blank_state {
  clen = 8;
  challenge = counter_bytes 7 ++ replicate 8 0;
  failcount = failures;
  authtime = 999;
  scratch1 = 16;
}

abbrev pub times : Times
times = record {
  now = 1000;
  async_time = 1000;
  sync_time = λ t e. 1000;
  get_ns = 1000;
  state_ns = 1000;
  put_ns = 1000;
}

abbrev pub pass : ℕ → Bytes
pass digit = replicate 5 b'0' ++ (b'0' + digit) ∷ []

abbrev pub request : ℕ → Request
request digit = record {
  username = b'j' ∷ b'o' ∷ b'e' ∷ [];
  challenge = [];
  pwe = pap (pass digit);
  allow_async = false;
  allow_sync = true;
  challenge_delay = 0;
  resync = true;
}

abbrev pub reply : Reply
reply = record { rc = auth_err; passcode = [] }

abbrev pub userops : Userops
userops name settings now = found user

abbrev pub stateops : StateOps State
stateops = record {
  get = λ settings who blank s. (some (record s { locked = true }), s);
  put = λ settings who s' s. (true, s');
}

abbrev pub stack : Bytes
stack = replicate 16 0
