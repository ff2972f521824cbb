-- ===== src/Tests/Files.antt =====
-- state.c: the theorems on the state file at concrete inputs.
use otpd.Base.{◌<◌, ◌≡◌, refl, true, false, none, some, [], ◌∷◌, arith, length}
use otpd.Otp.{State}
use otpd.Lock.{Node, Chain, lock_get, lock_put}
use otpd.Store.Text.{state_unparse}
use otpd.Store.Text.Laws.{IsPrintable, restored}
use otpd.Store.File.{absent, renamed}
use otpd.Store.Local.{Local, state_get_local, state_put_local}
use otpd.Store.Local.Laws.{state_get_local-state_put_local}
use otpd.Verify.Session.{blank_state}
use otpd.Card.Counter.{counter_bytes}
use otpd.Tests.{user, state}

abbrev saved : State
saved = record (state 4) { rd = b'2' ∷ []; updated = true; locked = true }

printable : IsPrintable user saved
unfolding counter_bytes
printable = record {
  username = (refl, (refl, (refl, tt)));
  csd = (tt, tt);
  csd_len = omega arith;
  rd = ((refl, tt), (refl, tt));
  rd_len = omega arith;
  clen = omega arith;
  octets = (
    omega arith,
    (
      omega arith,
      (omega arith, (omega arith, (omega arith, (omega arith, (omega arith, (omega arith, tt)))))),
    ),
  );
  filled = omega arith;
  failcount = omega arith;
  authtime = omega arith;
  mincardtime = omega arith;
}

short : length (state_unparse user saved) < 892
unfolding state_unparse counter_bytes
short = omega arith

-- The user's lock is node 0, and it is held.
abbrev held_node : Node
held_node = record { username = some user.username; ltime = 5; prev = none; next = none }

abbrev held : Chain
held = record { nodes = held_node ∷ []; first = 0; last = some 0 }

abbrev store : Local
store = record { file = λ name. absent; chain = λ bucket. held }

abbrev free : Chain
free = record { nodes = (record held_node { username = none }) ∷ []; first = 0; last = none }

abbrev held_again : Chain
held_again = record { nodes = (record held_node { ltime = 9 }) ∷ []; first = 0; last = some 0 }

put_run : lock_put 0 held ≡ some free
unfolding lock_put
put_run = refl

get_run : lock_get user.username 9 free ≡ some (some 0, held_again)
unfolding lock_get
get_run = refl

state_get_local-state_put_local_example :
    (after : Local) × (later : Local) × (state_put_local renamed user saved 0 store
      ≡ some (true, after))
    × (state_get_local 9 user blank_state after
        ≡ some (
          some (record (restored blank_state saved) { locked = true; updated = false }, 0),
          later,
        ))
state_get_local-state_put_local_example =
    state_get_local-state_put_local user saved store 0 free blank_state 9 0 held_again printable
      short refl put_run get_run
