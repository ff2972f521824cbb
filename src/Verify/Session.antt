-- ===== src/Verify/Session.antt =====
-- otp.c, verify(): the user, the state, the search and the release of the state, in order.
use otpd.Base.{
  ℕ, ◌-◌, Bool, true, false, Option, none, some, List, [], ltb, if◌then◌else◌, Bytes, replicate,
}
use otpd.Crypto.{Crypto}
use otpd.Otp.{Rc, user_unknown, authinfo_unavail, service_err, Request, Reply, Config, User, State}
use otpd.Cardops.{Cardops}
use otpd.Verify.Run.{Jump, Run, go, jump}
use otpd.Verify.Setup.{find_cardops, static_password, Ready, setup}
use otpd.Verify.Frame.{Decision, decided, failed, Times}
use otpd.Verify.Decide.{load_state, decide}
use otpd.Verify.Settle.{settle}

-- What `userops->get()` returns: 0 with the user, -1, or -2.
pub data UserLookup : Type 0 where
  found : User → UserLookup
  not_found : UserLookup
  unavailable : UserLookup

-- `userops->get()` for a name at a time.
abbrev pub Userops : Type 0
Userops = Bytes → Config → ℕ → UserLookup

-- state_get() and state_put() over what they read and write; `false` is -1.
pub record StateOps (S : Type 0) : Type 0 where
  pub get : Config → User → State → S → Option State × S
  pub put : Config → User → State → S → Bool × S

-- The state before it is fetched: `state_t state = { .locked = 0 }`.
abbrev pub blank_state : State
blank_state = record {
  locked = false;
  nullstate = false;
  updated = false;
  clen = 0;
  challenge = replicate 16 0;
  csd = [];
  rd = [];
  failcount = 0;
  authtime = 0;
  mincardtime = 0;
  scratch1 = 0;
}

pub data Verified (S : Type 0) : Type 0 where
  returned : Reply → S → Verified S
  undefined_behaviour : Verified S

-- The reply once state_put() has returned: a failure overrides `rc`.
unfoldable pub reported : {S : Type 0} → Rc → Bytes → Bool × S → Verified S
reported rc passcode (true, s) = returned (record { rc = rc; passcode = passcode }) s
reported rc passcode (false, s) = returned (record { rc = service_err; passcode = passcode }) s

abbrev pub ms250 : ℕ
ms250 = 250000000

abbrev pub ms500 : ℕ
ms500 = 500000000

module _ {S : Type 0} (crypto : Crypto) (modules : List Cardops) (userops : Userops)
    (stateops : StateOps S) (times : Times) (stack : Bytes) where
  -- state_put() with the time that is left, where the state is locked.
  unfoldable pub release : Config → User → ℕ → Rc → Bytes → State → S → Verified S
  unfolding reported
  release config user timeout rc passcode state s =
      if state.locked
      then reported rc passcode (stateops.put (record config { timeout = timeout }) user state s)
      else returned (record { rc = rc; passcode = passcode }) s

  -- From `auth_done` on; at least 250 ms are granted to state_put().
  unfoldable pub finish : Config → User → ℕ → Bytes → S → Decision → Verified S
  unfolding settle release
  finish config user timeout old s (decided rc frame) =
      let (state, passcode) = settle times.now rc frame old in
      let left = timeout - times.put_ns in
      release config user (if ltb left ms250 then ms250 else left) rc passcode state s
  finish config user timeout old s (failed state) =
      let left = timeout - times.put_ns in
      release config user (if ltb left ms250 then ms250 else left) service_err old state s
  finish config user timeout old s Decision.undefined = undefined_behaviour

  -- The blocks that run with the state loaded; `left` is the time that state_get() has left.
  unfoldable pub with_loaded :
      Config → Request → Reply → Cardops → User → ℕ → State → S → Option State → Verified S
  unfolding finish decide release
  with_loaded config request reply ops user left state s none =
      finish config user left reply.passcode s (failed state)
  with_loaded config request reply ops user left state s (some loaded) =
      if ltb left ms250
      then release config user ms250 service_err reply.passcode loaded s
      else finish config user left reply.passcode s
          (decide crypto times stack config request ops user loaded)

  -- The blocks behind state_get(), which had `timeout` left.
  unfoldable pub with_state :
      Config → Request → Reply → Cardops → User → ℕ → Option State × S → Verified S
  unfolding load_state with_loaded
  with_state config request reply ops user timeout (none, s) =
      returned (record reply { rc = service_err }) s
  with_state config request reply ops user timeout (some state, s) =
      with_loaded config request reply ops user (timeout - times.state_ns) state s
        (load_state config ops user state times.now)

  -- The blocks behind the setup.
  unfoldable pub with_user : Config → Request → Reply → Cardops → Ready → S → Verified S
  unfolding with_state
  with_user config request reply ops ready s =
      let left = config.timeout - times.get_ns in
      if ltb left ms500
      then returned (record reply { rc = service_err }) s
      else with_state config request reply ops ready.user left
          (stateops.get (record config { timeout = left }) ready.user ready.state s)

  -- A jump before the state is fetched finds no lock to release: only `rc` is set.
  unfoldable pub after_setup : Config → Request → Reply → Cardops → Run Ready → S → Verified S
  unfolding with_user
  after_setup config request reply ops (go ready) s = with_user config request reply ops ready s
  after_setup config request reply ops (jump (Jump.auth_done rc)) s =
      returned (record reply { rc = rc }) s
  after_setup config request reply ops (jump (Jump.auth_done_service_err rc)) s =
      returned (record reply { rc = rc }) s
  after_setup config request reply ops (jump Jump.undefined) s = undefined_behaviour

  -- The static password, if there is one, and the token otherwise.
  unfoldable pub with_card :
      Config → Request → Reply → User → S → Option Cardops → Option Bytes → Verified S
  unfolding static_password setup after_setup
  with_card config request reply user s none password =
      returned (record reply { rc = service_err }) s
  with_card config request reply user s (some ops) (some password) =
      returned (record reply { rc = static_password crypto request user password }) s
  with_card config request reply user s (some ops) none =
      after_setup config request reply ops (setup crypto config request ops user blank_state) s

  unfoldable pub with_lookup : Config → Request → Reply → S → UserLookup → Verified S
  unfolding find_cardops with_card
  with_lookup config request reply s not_found = returned (record reply { rc = user_unknown }) s
  with_lookup config request reply s unavailable =
      returned (record reply { rc = authinfo_unavail }) s
  with_lookup config request reply s (found user) =
      with_card config request reply user s (find_cardops modules user.card) user.password

  unfoldable pub verify : Config → Request → Reply → S → Verified S
  unfolding with_lookup
  verify config request reply s =
      with_lookup config request reply s (userops request.username config times.now)
