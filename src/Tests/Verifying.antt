-- ===== src/Tests/Verifying.antt =====
-- otp.c, verify(): runs, and the theorems at them.
use otpd.Base.{
  ◌+◌, ◌-◌, ◌≤◌, ◌<◌, ◌≡◌, ◌≢◌, refl, ap, subst, ◌^◌, true, false, Option, none, some, [], ◌∷◌,
  ◌++◌, arith, take, replicate,
}
use otpd.Otp.{async_mode, ok, maxtries, State}
use otpd.Card.Counter.{counter_bytes}
use otpd.Card.Window
use otpd.Card.Hotp.{hotp_cardops, name2fm, hotp_keystring2key, hotp_challenge, hotp_response}
use otpd.Card.Hotp.Search.{hotp-KeepsBook}
use otpd.Card.Hotp.Replay.{Moved, decide-Moved}
use otpd.Verify.Fail.{fail_condition, fail_soft}
use otpd.Verify.Sync.{rounds, event_end}
use otpd.Verify.Frame.{Frame, decided}
use otpd.Verify.Settle.{settle}
use otpd.Verify.Decide.{decide, load_state}
use otpd.Verify.Session.{returned, verify}
use otpd.Verify.Evidence.{Proven, verify-Proven}
use otpd.Verify.Barred.{verify_hard}
use otpd.Verify.Counting.{locked_out}
use otpd.Verify.Delay.{Follows, decide_soft}
use otpd.Verify.Grant.{OnOk}
use otpd.Verify.Sentinel.{load_state-settle, reread}
use otpd.Tests.{
  toy_crypto, modules, config, user, ready_user, state, times, pass, request, reply, userops,
  stateops, stack,
}

-- Two slots ahead, within the window.
abbrev granted : State
granted = record (state 0) {
  challenge = counter_bytes 9 ++ replicate 8 0;
  authtime = 1000;
  updated = true;
  locked = true;
}

run_ok :
    verify toy_crypto modules userops stateops times stack config (request 9) reply (state 2)
    ≡ returned (record { rc = ok; passcode = pass 9 }) granted
unfolding verify name2fm hotp_keystring2key hotp_challenge hotp_response Window.updatecsd
    Window.isconsecutive counter_bytes
run_ok = refl

verify-Proven_example :
    Proven toy_crypto modules userops stateops times stack config (request 9) (pass 9)
verify-Proven_example =
    verify-Proven toy_crypto modules userops stateops times stack config (request 9) reply
      (record { rc = ok; passcode = pass 9 }) (state 2) granted run_ok refl

-- The same passcode at the hard limit: one more failure, and the slot is saved.
abbrev refused_frame : Frame
refused_frame = record {
  state = record (state 10) { rd = b'1' ∷ [] };
  challenge = counter_bytes 9 ++ replicate 8 0;
  e_response = pass 9;
  resync = true;
}

abbrev refused : State
refused = record (state 11) { rd = b'1' ∷ []; authtime = 1000; updated = true; locked = true }

run_hard :
    verify toy_crypto modules userops stateops times stack config (request 9) reply (state 10)
    ≡ returned (record { rc = maxtries; passcode = [] }) refused
unfolding verify name2fm hotp_keystring2key hotp_challenge hotp_response Window.updatecsd
    Window.isconsecutive counter_bytes
run_hard = refl

abbrev Full : Option State → Type 0
Full none = ⊥
Full (some s) = (s.nullstate ≡ false) × (config.hardfail ≤ s.failcount)

verify_hard_example : maxtries ≢ ok
verify_hard_example =
    verify_hard toy_crypto modules userops stateops times stack config (request 9) reply
      (record { rc = maxtries; passcode = [] }) (state 10) refused user refl refl
      (λ e. ground arith) (λ c u b s s' got. subst Full (ap (λ p. p.0) got) (refl, omega arith))
      run_hard

attempt_hard :
    decide toy_crypto times stack config (request 9) (hotp_cardops toy_crypto) ready_user (state 10)
    ≡ decided maxtries refused_frame
unfolding decide hotp_challenge hotp_response Window.updatecsd Window.isconsecutive counter_bytes
attempt_hard = refl

locked_out_example :
    (maxtries ≢ ok)
    × (10 ≤ (settle 1000 maxtries refused_frame []).0.failcount)
    × ((settle 1000 maxtries refused_frame []).0.failcount < 2 ^ 32 - 1)
locked_out_example =
    locked_out toy_crypto config (request 9) (hotp_cardops toy_crypto) ready_user times
      (hotp-KeepsBook toy_crypto) stack (state 10) maxtries refused_frame attempt_hard []
      (λ e. ground arith) (omega arith) (omega arith)

flags : async_mode ready_user.featuremask ≡ false
unfolding async_mode
flags = refl

held : take 8 (state 2).challenge ≡ counter_bytes 7
unfolding counter_bytes
held = refl

window : 7 + rounds (event_end config ready_user) ≤ 2 ^ 31
unfolding rounds event_end
window = omega arith

-- Counter 7 moves to counter 9.
decide-Moved_example : OnOk (Moved toy_crypto config (request 9) ready_user times 7 1000) (
    decide toy_crypto times stack config (request 9) (hotp_cardops toy_crypto) ready_user (state 2))
decide-Moved_example =
    decide-Moved toy_crypto config (request 9) ready_user times 7 (state 2) stack flags held refl
      window

abbrev candidate : State
candidate = record (state 4) { rd = b'0' ∷ [] }

soft : fail_condition config candidate 1000 ≡ some fail_soft
unfolding fail_condition
soft = refl

decide_soft_example :
    OnOk (Follows toy_crypto config (request 9) (hotp_cardops toy_crypto) ready_user times) (
      decide toy_crypto times stack config
        (request 9)
        (hotp_cardops toy_crypto)
        ready_user
        candidate)
decide_soft_example =
    decide_soft toy_crypto config (request 9) (hotp_cardops toy_crypto) ready_user times stack
      candidate soft

-- The candidate at slot 0 and the match at slot 1 are a grant under the soft fail condition.
run_soft :
    decide toy_crypto times stack config (request 9) (hotp_cardops toy_crypto) ready_user candidate
    ≡ decided ok (record refused_frame { state = state 4 })
unfolding decide hotp_challenge hotp_response Window.updatecsd Window.isconsecutive counter_bytes
run_soft = refl

load_state-settle_example :
    (loaded : State) × (load_state config
        (hotp_cardops toy_crypto)
        ready_user
        (reread (settle 1000 maxtries refused_frame []).0)
        2000
      ≡ some loaded)
    × (loaded.authtime ≡ 1000)
    × (loaded.nullstate ≡ false)
load_state-settle_example =
    load_state-settle config (hotp_cardops toy_crypto) ready_user 1000 2000 maxtries refused_frame
      [] (omega arith) (omega arith) (λ e. cc)
