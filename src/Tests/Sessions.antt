-- ===== src/Tests/Sessions.antt =====
-- verify() over the state files: a grant that moves the counter in the file of the user.
use otpd.Base.{
  ◌+◌, ◌≤◌, ◌≡◌, ◌^◌, refl, true, false, none, some, [], ◌∷◌, ◌++◌, arith, take, replicate,
}
use otpd.Otp.{ok, State, async_mode, response_len}
use otpd.Uhash.{uhash}
use otpd.Gsmd.{no_chains}
use otpd.Lock.{Node, Chain, lock_init, lock_get, lock_put}
use otpd.Card.Counter.{counter_bytes}
use otpd.Card.Window
use otpd.Card.Hotp.{hotp_cardops, name2fm, hotp_keystring2key, hotp_challenge, hotp_response}
use otpd.Verify.Run.{go}
use otpd.Verify.Setup.{Ready, setup, find_cardops}
use otpd.Verify.Sync.{rounds, event_end}
use otpd.Verify.Session.{returned, verify, blank_state}
use otpd.Store.Text.{state_parse, state_unparse}
use otpd.Store.File.{state_read, contents, line_ended, renamed}
use otpd.Store.Local.{Local, set_file, set_chain}
use otpd.Store.Global.{Net}
use otpd.Store.Session.{
  no_handle, Shared, running, Surroundings, service_ops, met, state_get, state_put,
}
use otpd.Store.Single.{stored, Recorded, verify-Recorded}
use otpd.Tests.{
  toy_crypto, modules, config, user, ready_user, state, times, pass, request, reply, userops, stack,
}

abbrev net : Net
net = record { socket_ok = false; connect_ok = false; ioctl_ok = false; stack = []; network = [] }

-- Nobody else is at work.
abbrev around : Surroundings
around = record { now = λ n. 5; written = λ n. renamed; net = λ n. net; others = λ n found. found }

abbrev files : Local
files = record {
  file = λ name. contents (line_ended (state_unparse user (state 2)));
  chain = λ bucket. lock_init;
}

abbrev shared : Shared
shared = record {
  files = files;
  managers = record { chains = no_chains; streamid = (0, 0); nonce_seq = 0; posts = λ name. 0 };
  held = no_handle;
  calls = 0;
}

-- The state behind the grant of counter 9.
abbrev moved_state : State
moved_state = record (state 0) {
  challenge = counter_bytes 9 ++ replicate 8 0;
  authtime = 1000;
  updated = true;
  locked = true;
}

-- The lock while it is held, and behind.
abbrev node : Node
node = record { username = some user.username; ltime = 5; prev = none; next = none }

abbrev taken : Chain
taken = record { nodes = node ∷ []; first = 0; last = some 0 }

abbrev free : Chain
free = record { nodes = (record node { username = none }) ∷ []; first = 0; last = none }

abbrev ready : Ready
ready = record {
  user = ready_user;
  state = record blank_state { scratch1 = 16 };
  otp_len = 6;
  pin_len = 0;
}

set_up : setup toy_crypto config (request 9) (hotp_cardops toy_crypto) user blank_state ≡ go ready
unfolding setup name2fm hotp_keystring2key response_len
set_up = refl

flags : async_mode ready_user.featuremask ≡ false
unfolding async_mode
flags = refl

found_card : find_cardops modules user.card ≡ some (hotp_cardops toy_crypto)
unfolding find_cardops
found_card = refl

in_file :
    stored ready_user.username (record ready.state { locked = false }) (met around shared).files
    ≡ some (state 2)
unfolding met state_unparse line_ended counter_bytes state_read state_parse
in_file = refl

held : take 8 (state 2).challenge ≡ counter_bytes 7
unfolding counter_bytes
held = refl

window : 7 + rounds (event_end config ready_user) ≤ 2 ^ 31
unfolding rounds event_end
window = omega arith

abbrev after : Shared
after = record shared {
  files = record {
    file =
        set_file user.username (contents (line_ended (state_unparse ready_user moved_state)))
          files.file;
    chain =
        set_chain (uhash user.username) free (set_chain (uhash user.username) taken files.chain);
  };
  calls = 2;
}

granted_run :
    verify toy_crypto modules userops
      (service_ops around)
      times
      stack
      config
      (request 9)
      reply
      (running shared)
    ≡ returned (record { rc = ok; passcode = pass 9 }) (running after)
unfolding verify name2fm hotp_keystring2key hotp_challenge hotp_response Window.updatecsd
    Window.isconsecutive counter_bytes state_get state_put lock_get lock_put
granted_run = refl

verify-Recorded_example :
    Recorded toy_crypto modules userops around times stack config
      (request 9)
      user
      ready
      7
      (pass 9)
      (running after)
verify-Recorded_example =
    verify-Recorded toy_crypto modules userops around times stack config (request 9) user ready
      reply (record { rc = ok; passcode = pass 9 }) shared (running after) 7 (state 2) refl refl
      refl refl found_card set_up flags in_file held refl window granted_run refl
