-- ===== src/Verify/Saved.antt =====
-- otp.c, verify(): what a token's grant puts into the state store.
use otpd.Base.{
  sym, ap, ap₂, ℕ, ◌-◌, ◌≡◌, refl, subst, ◌∙◌, Bool, true, false, Option, none, some, List, ltb,
  if◌then◌else◌, Bytes,
}
use otpd.Crypto.{Crypto}
use otpd.Otp.{Rc, ok, service_err, Request, Reply, Config, User, State}
use otpd.Cardops.{Cardops}
use otpd.Cardops.Book.{KeepsBook}
use otpd.Verify.Run.{go}
use otpd.Verify.Setup.{Ready, find_cardops, setup}
use otpd.Verify.Frame.{Frame, Decision, decided, failed, Times}
use otpd.Verify.Settle.{settle, settle_ok}
use otpd.Verify.Decide.{load_state, decide}
use otpd.Verify.Session.{
  found, Userops, StateOps, Verified, returned, undefined_behaviour, blank_state, ms250, ms500,
  reported, release, finish, with_loaded, with_state, with_user, after_setup, with_card,
  with_lookup, verify,
}
use otpd.Verify.OnGrant.{service_err≢ok}
use otpd.Verify.Release.{
  OnGot, IsDisciplined, load_state-locked, settle-locked, Marked, decide-Marked,
}

module _ {S : Type 0} (P : Bytes → S → Type 0) where
  -- A property of the passcode and the store of every reply that grants.
  abbrev OnOkReturn : Verified S → Type 0
  OnOkReturn (returned r s) = r.rc ≡ ok → P r.passcode s
  OnOkReturn undefined_behaviour = Unit

  pick :
      (b : Bool) (v w : Verified S) → OnOkReturn v → OnOkReturn w → OnOkReturn (if b then v else w)
  pick true v w p q = p
  pick false v w p q = q

  pick_true :
      (b : Bool) (v w : Verified S) → b ≡ true → OnOkReturn v → OnOkReturn (if b then v else w)
  pick_true true v w e p = p
  pick_true false v w e p = absurd cc

  reported-OnOk :
      (rc : Rc) (passcode : Bytes) (put : Bool × S)
      → (rc ≡ ok → (s' : S) → put ≡ (true, s') → P passcode s')
      → OnOkReturn (reported rc passcode put)
  unfolding reported
  reported-OnOk rc passcode (true, s) h = λ e. h e s refl
  reported-OnOk rc passcode (false, s) h = λ e. absurd (service_err≢ok e)

module _ {S : Type 0} (crypto : Crypto) (modules : List Cardops) (userops : Userops)
    (stateops : StateOps S) (times : Times) (stack : Bytes) (IsFree : S → Type 0)
    (discipline : IsDisciplined IsFree stateops) where
  module _ (P : Bytes → S → Type 0) (config : Config) (user : User) where
    release-OnOk :
        (timeout : ℕ) (rc : Rc) (passcode : Bytes) (state : State) (s : S)
        → state.locked ≡ true
        → (rc ≡ ok
            → (s' : S)
            → stateops.put (record config { timeout = timeout }) user state s ≡ (true, s')
            → P passcode s')
        → OnOkReturn P (
            release crypto modules userops stateops times stack config user timeout rc passcode
              state s)
    unfolding release
    release-OnOk timeout rc passcode state s locked h = pick_true P state.locked _ _ locked (
        reported-OnOk P rc passcode
          (stateops.put (record config { timeout = timeout }) user state s) h)

    -- What has to be shown of a decision: `P` for each put of its state that succeeds.
    abbrev Puts : S → Decision → Type 0
    Puts s d =
        (frame : Frame) (timeout : ℕ) (s' : S)
        → d ≡ decided ok frame
        → (settle_ok times.now frame).locked ≡ true
        → stateops.put (record config { timeout = timeout }) user (settle_ok times.now frame) s
          ≡ (true, s')
        → P frame.e_response s'

    finish-OnOk :
        (timeout : ℕ) (old : Bytes) (s : S) (d : Decision)
        → Marked crypto modules userops stateops times stack IsFree discipline d
        → Puts s d
        → OnOkReturn P
            (finish crypto modules userops stateops times stack config user timeout old s d)
    unfolding finish settle
    finish-OnOk timeout old s (decided ok frame) locked h =
        release-OnOk _ ok frame.e_response (settle_ok times.now frame) s
          (settle-locked times.now ok frame old ∙ locked)
          (λ e s' put. h frame _ s' refl (settle-locked times.now ok frame old ∙ locked) put)
    finish-OnOk timeout old s (decided rc frame) locked h =
        release-OnOk _ rc _ (settle times.now rc frame old).0 s
          (settle-locked times.now rc frame old ∙ locked) (λ e. absurd cc)
    finish-OnOk timeout old s (failed state) locked h =
        release-OnOk _ service_err old state s locked (λ e. absurd (service_err≢ok e))
    finish-OnOk timeout old s Decision.undefined locked h = tt

    with_loaded-OnOk :
        (request : Request) (reply : Reply) (ops : Cardops) (left : ℕ) (state : State) (s : S)
        (l : Option State)
        → KeepsBook ops
        → state.locked ≡ true
        → load_state config ops user state times.now ≡ l
        → ((loaded : State)
            → l ≡ some loaded
            → Puts s (decide crypto times stack config request ops user loaded))
        → OnOkReturn P (
            with_loaded crypto modules userops stateops times stack config request reply ops user
              left state s l)
    unfolding with_loaded
    with_loaded-OnOk request reply ops left state s none laws locked e h =
        finish-OnOk left reply.passcode s (failed state) locked
          (λ frame timeout s' d marked put. absurd (cc))
    with_loaded-OnOk request reply ops left state s (some loaded) laws locked e h =
        let kept = load_state-locked config ops user state loaded times.now laws e ∙ locked in
        pick P (ltb left ms250) _ _
          (release-OnOk ms250 service_err reply.passcode loaded s kept
            (λ e. absurd (service_err≢ok e)))
          (finish-OnOk left reply.passcode s _
            (decide-Marked crypto modules userops stateops times stack IsFree discipline config
              request ops user loaded laws kept)
            (h loaded refl))

    with_state-OnOk :
        (request : Request) (reply : Reply) (ops : Cardops) (timeout : ℕ) (got : Option State × S)
        → KeepsBook ops
        → OnGot IsFree got
        → ((state loaded : State) (s : S)
            → got ≡ (some state, s)
            → load_state config ops user state times.now ≡ some loaded
            → Puts s (decide crypto times stack config request ops user loaded))
        → OnOkReturn P (
            with_state crypto modules userops stateops times stack config request reply ops user
              timeout got)
    unfolding with_state
    with_state-OnOk request reply ops timeout (none, s) laws held h = λ e. absurd (service_err≢ok e)
    with_state-OnOk request reply ops timeout (some state, s) laws locked h =
        with_loaded-OnOk request reply ops _ state s _ laws locked refl
          (λ loaded load. h state loaded s refl load)

  -- How a token's grant came about: the state that was got, loaded and decided on, and the put of
  -- the state behind it, which succeeded.
  pub record Saves (config : Config) (request : Request) (ops : Cardops) (ready : Ready) (s s' : S)
      (passcode : Bytes) : Type 0 where
    pub state : State
    pub loaded : State
    pub between : S
    pub frame : Frame
    pub timeout : ℕ
    pub got :
        stateops.get
          (record config { timeout = config.timeout - times.get_ns })
          ready.user
          ready.state
          s
        ≡ (some state, between)
    pub load : load_state config ops ready.user state times.now ≡ some loaded
    pub granted : decide crypto times stack config request ops ready.user loaded ≡ decided ok frame
    pub locked : (settle_ok times.now frame).locked ≡ true
    pub put :
        stateops.put
          (record config { timeout = timeout })
          ready.user
          (settle_ok times.now frame)
          between
        ≡ (true, s')
    pub shown : frame.e_response ≡ passcode

  with_user-Saves :
      (config : Config) (request : Request) (reply : Reply) (ops : Cardops) (ready : Ready) (s : S)
      → KeepsBook ops
      → IsFree s
      → OnOkReturn
          (λ passcode s'. Saves config request ops ready s s' passcode)
          (with_user crypto modules userops stateops times stack config request reply ops ready s)
  unfolding with_user
  with_user-Saves config request reply ops ready s laws free =
      let P : Bytes → S → Type 0 = λ passcode s'. Saves config request ops ready s s' passcode in
      pick P (ltb (config.timeout - times.get_ns) ms500) _ _ (λ e. absurd (service_err≢ok e))
        (with_state-OnOk P config ready.user request reply ops (config.timeout - times.get_ns) _
          laws
          (discipline.get_law (record config { timeout = config.timeout - times.get_ns }) ready.user
            ready.state s free)
          λ state loaded between got load frame timeout s' granted locked put. record {
            state = state;
            loaded = loaded;
            between = between;
            frame = frame;
            timeout = timeout;
            got = got;
            load = load;
            granted = granted;
            locked = locked;
            put = put;
            shown = refl;
          })

  -- Where the state store keeps its contract and the user has a token that got through the setup, and
  -- no static password, a reply that grants was preceded by a get, a decision that granted, and a put
  -- of the settled state that succeeded and left the store as it is behind the reply.
  pub verify-Saves :
      (config : Config) (request : Request) (reply reply' : Reply) (user : User) (ops : Cardops)
      (ready : Ready) (s s' : S)
      → KeepsBook ops
      → IsFree s
      → userops request.username config times.now ≡ found user
      → user.password ≡ none
      → find_cardops modules user.card ≡ some ops
      → setup crypto config request ops user blank_state ≡ go ready
      → verify crypto modules userops stateops times stack config request reply s
        ≡ returned reply' s'
      → reply'.rc ≡ ok
      → Saves config request ops ready s s' reply'.passcode
  unfolding verify with_lookup with_card after_setup
  verify-Saves config request reply reply' user ops ready s s' laws free eu ep eo er e =
      subst (OnOkReturn (λ passcode s'. Saves config request ops ready s s' passcode))
        (sym unwound ∙ e) (with_user-Saves config request reply ops ready s laws free)
    where
      unwound :
          with_lookup crypto modules userops stateops times stack config request reply s
            (userops request.username config times.now)
          ≡ with_user crypto modules userops stateops times stack config request reply ops ready s
      unwound =
          ap (with_lookup crypto modules userops stateops times stack config request reply s) eu
          ∙ ap₂ (with_card crypto modules userops stateops times stack config request reply user s)
              eo ep
          ∙ ap
              (λ run.
                after_setup crypto modules userops stateops times stack config request reply ops run
                  s)
              er
