-- ===== src/Verify/Barred.antt =====
-- otp.c, verify(): the hard limit as the caller of verify() meets it.
use otpd.Base.{ℕ, ◌≤◌, ◌≡◌, ◌≢◌, false, none, some, List, arith, Bytes}
use otpd.Crypto.{Crypto}
use otpd.Otp.{ok, Request, Reply, Config, User, State}
use otpd.Cardops.{Cardops}
use otpd.Verify.Frame.{Times}
use otpd.Verify.Decide.{load_state}
use otpd.Verify.Session.{found, Userops, StateOps, returned, verify}
use otpd.Verify.Lockout.{decide_hard}
use otpd.Verify.Grant.{OnOk-decided_ok}
use otpd.Verify.Evidence.{Evidence, static, token, verify-Evidence}

-- Loading a state that is not null keeps the count.
load_state-failcount :
    (config : Config) (ops : Cardops) (user : User) (state loaded : State) (now : ℕ)
    → state.nullstate ≡ false
    → load_state config ops user state now ≡ some loaded
    → loaded.failcount ≡ state.failcount
unfolding load_state
load_state-failcount config ops user state loaded now old eq = ground arith

no_password :
    (user user' : User) (password : Bytes)
    → found user ≡ found user'
    → user.password ≡ none
    → user'.password ≡ some password
    → ⊥
no_password user user' password e ep ep' = ground arith

module _ {S : Type 0} (crypto : Crypto) (modules : List Cardops) (userops : Userops)
    (stateops : StateOps S) (times : Times) (stack : Bytes) (config : Config)
    (request : Request) where
  Evidence-barred :
      (s : S) (passcode : Bytes) (user : User)
      → userops request.username config times.now ≡ found user
      → user.password ≡ none
      → config.hardfail ≢ 0
      → ((c : Config) (u : User) (b state : State) (s' : S)
          → stateops.get c u b s ≡ (some state, s')
          → (state.nullstate ≡ false) × (config.hardfail ≤ state.failcount))
      → Evidence crypto modules userops stateops times stack config request s passcode
      → ⊥
  Evidence-barred s passcode user eu ep set full (static user' password eu' ep' e) =
      no_password user user' password (cc) ep ep'
  Evidence-barred s passcode user eu ep set full
        (token user' ops ready state loaded s' frame eu' ep' eo er got load granted e) =
      let (old, reached) = full _ _ _ state s' got in
      OnOk-decided_ok (λ _. ⊥) granted
        (decide_hard crypto config request ops ready.user times stack loaded set (
          omega
            (arith, load_state-failcount config ops ready.user state loaded times.now old load)))

  -- For a user without a static password, whose fetched state is never null and always at the hard
  -- limit, which is set, no reply of verify() is OTP_RC_OK, whatever the passcode, the token and the
  -- times are.
  pub verify_hard :
      (reply reply' : Reply) (s s' : S) (user : User)
      → userops request.username config times.now ≡ found user
      → user.password ≡ none
      → config.hardfail ≢ 0
      → ((c : Config) (u : User) (b state : State) (s' : S)
          → stateops.get c u b s ≡ (some state, s')
          → (state.nullstate ≡ false) × (config.hardfail ≤ state.failcount))
      → verify crypto modules userops stateops times stack config request reply s
        ≡ returned reply' s'
      → reply'.rc ≢ ok
  verify_hard reply reply' s s' user eu ep set full eq granted =
      Evidence-barred s _ user eu ep set full (
        verify-Evidence crypto modules userops stateops times stack config request reply reply' s s'
          eq granted)
