-- ===== src/Verify/Sentinel.antt =====
-- otp.c, verify(): the sign of the saved time tells a null state from an authenticated one.
use otpd.Base.{ℕ, ◌^◌, ◌<◌, ◌≡◌, ◌≢◌, refl, true, false, some, arith, leb, if◌then◌else◌, Bytes}
use otpd.Otp.{Rc, ok, Config, User, State}
use otpd.Cardops.{Cardops}
use otpd.Verify.Frame.{Frame}
use otpd.Verify.Decide.{load_state}
use otpd.Verify.Settle.{settle, settle_failed, negated}

-- The state as state_parse() reads it back: the saved fields, and a null flag that is clear.
abbrev pub reread : State → State
reread state = record state { nullstate = false }

loaded_of : State → State
loaded_of state =
    if leb (2 ^ 31) state.authtime
    then record state { authtime = negated state.authtime; nullstate = true }
    else state

loaded_of_failed :
    (now : ℕ) (frame : Frame)
    → 0 < now
    → now < 2 ^ 31
    → ((loaded_of (reread (settle_failed now frame))).authtime ≡ now)
      × ((loaded_of (reread (settle_failed now frame))).nullstate ≡ frame.state.nullstate)
unfolding loaded_of settle_failed
loaded_of_failed now frame pos fits = ground arith

-- A refused attempt at a time from 1 to 2^31 - 1 saves a time from which the next call recovers
-- both the time of the attempt and whether the user ever authenticated.
pub load_state-settle :
    (config : Config) (ops : Cardops) (user : User) (now later : ℕ) (rc : Rc) (frame : Frame)
    (old : Bytes)
    → 0 < now
    → now < 2 ^ 31
    → rc ≢ ok
    → (loaded : State) × (load_state config ops user (reread (settle now rc frame old).0) later
        ≡ some loaded)
      × (loaded.authtime ≡ now)
      × (loaded.nullstate ≡ frame.state.nullstate)
unfolding load_state settle loaded_of
load_state-settle config ops user now later ok frame old pos fits refused = absurd (refused refl)
load_state-settle config ops user now later _ frame old pos fits refused =
    let (time, null) = loaded_of_failed now frame pos fits in
    (loaded_of (reread (settle_failed now frame)), refl, time, null)
