-- ===== src/Verify/OnGrant.antt =====
-- otp.c, verify(): from the decision to the reply, for what holds of every reply that grants.
use otpd.Base.{
  ℕ, ◌-◌, ◌≡◌, refl, subst, Bool, true, false, Option, none, some, List, ltb, if◌then◌else◌, Bytes,
}
use otpd.Crypto.{Crypto}
use otpd.Otp.{Rc, ok, service_err, Request, Reply, Config, User, State}
use otpd.Cardops.{Cardops}
use otpd.Verify.Setup.{Ready}
use otpd.Verify.Frame.{Frame, Decision, decided, failed, Times}
use otpd.Verify.Settle.{settle}
use otpd.Verify.Decide.{load_state, decide}
use otpd.Verify.Session.{
  Userops, StateOps, Verified, returned, undefined_behaviour, ms250, ms500, reported, release,
  finish, with_loaded, with_state, with_user,
}
use otpd.Verify.Grant.{OnOk}

pub service_err≢ok : Rc.service_err ≡ Rc.ok → ⊥
service_err≢ok = cc

module _ {S : Type 0} where
  -- A property of the passcode in every reply that grants.
  abbrev pub OnGrant : (Bytes → Type 0) → Verified S → Type 0
  OnGrant P (returned r s) = r.rc ≡ ok → P r.passcode
  OnGrant P undefined_behaviour = Unit

module _ {S : Type 0} (crypto : Crypto) (modules : List Cardops) (userops : Userops)
    (stateops : StateOps S) (times : Times) (stack : Bytes) where
  module _ (P : Bytes → Type 0) where
    if-OnGrant :
        (b : Bool) (v w : Verified S) → OnGrant P v → OnGrant P w → OnGrant P (if b then v else w)
    if-OnGrant true v w p q = p
    if-OnGrant false v w p q = q

    reported-OnGrant :
        (rc : Rc) (passcode : Bytes) (put : Bool × S)
        → (rc ≡ ok → P passcode)
        → OnGrant P (reported rc passcode put)
    unfolding reported
    reported-OnGrant rc passcode (true, s) h = h
    reported-OnGrant rc passcode (false, s) h = λ e. absurd (service_err≢ok e)

    release-OnGrant :
        (config : Config) (user : User) (timeout : ℕ) (rc : Rc) (passcode : Bytes) (state : State)
        (s : S)
        → (rc ≡ ok → P passcode)
        → OnGrant P (
            release crypto modules userops stateops times stack config user timeout rc passcode
              state s)
    unfolding release
    release-OnGrant config user timeout rc passcode state s h =
        if-OnGrant state.locked _ _
          (reported-OnGrant rc passcode
            (stateops.put (record config { timeout = timeout }) user state s) h)
          h

    settle-OnOk :
        (rc : Rc) (frame : Frame) (old : Bytes)
        → OnOk (λ f. P f.e_response) (decided rc frame)
        → rc ≡ ok
        → P (settle times.now rc frame old).1
    unfolding settle
    settle-OnOk ok frame old h e = h
    settle-OnOk _ frame old h e = absurd (cc)

    finish-OnGrant :
        (config : Config) (user : User) (timeout : ℕ) (old : Bytes) (s : S) (d : Decision)
        → OnOk (λ f. P f.e_response) d
        → OnGrant P (finish crypto modules userops stateops times stack config user timeout old s d)
    unfolding finish
    finish-OnGrant config user timeout old s (decided rc frame) h =
        release-OnGrant config user _ rc _ _ s (settle-OnOk rc frame old h)
    finish-OnGrant config user timeout old s (failed state) h =
        release-OnGrant config user _ service_err old state s (λ e. absurd (service_err≢ok e))
    finish-OnGrant config user timeout old s Decision.undefined h = tt

    -- The decision for each state that the call of state_get() and the loading may give.
    abbrev pub Decides : Config → Request → Cardops → Ready → S → Type 0
    Decides config request ops ready s =
        (state loaded : State) (s' : S)
        → stateops.get (record config { timeout = config.timeout - times.get_ns }) ready.user
            ready.state s
          ≡ (some state, s')
        → load_state config ops ready.user state times.now ≡ some loaded
        → OnOk (λ f. P f.e_response)
            (decide crypto times stack config request ops ready.user loaded)

    with_loaded-OnGrant :
        (config : Config) (request : Request) (reply : Reply) (ops : Cardops) (user : User)
        (left : ℕ) (state : State) (s : S) (l : Option State)
        → ((loaded : State)
            → l ≡ some loaded
            → OnOk (λ f. P f.e_response) (decide crypto times stack config request ops user loaded))
        → OnGrant P (
            with_loaded crypto modules userops stateops times stack config request reply ops user
              left state s l)
    unfolding with_loaded
    with_loaded-OnGrant config request reply ops user left state s none h =
        finish-OnGrant config user left reply.passcode s (failed state) tt
    with_loaded-OnGrant config request reply ops user left state s (some loaded) h =
        if-OnGrant (ltb left ms250) _ _
          (release-OnGrant config user ms250 service_err reply.passcode loaded s
            (λ e. absurd (service_err≢ok e)))
          (finish-OnGrant config user left reply.passcode s _ (h loaded refl))

    -- Whatever state is fetched, the passcode of a grant has `P` if the decision sees to it.
    pub with_user-OnGrant :
        (config : Config) (request : Request) (reply : Reply) (ops : Cardops) (ready : Ready)
        (s : S)
        → Decides config request ops ready s
        → OnGrant P
            (with_user crypto modules userops stateops times stack config request reply ops ready s)
    unfolding with_user
    with_user-OnGrant config request reply ops ready s h =
        if-OnGrant (ltb (config.timeout - times.get_ns) ms500) _ _ (λ e. absurd (service_err≢ok e))
          (fetched _ (λ state loaded s' eq. h state loaded s' eq))
      where
        fetched :
            (got : Option State × S)
            → ((state loaded : State) (s' : S)
                → got ≡ (some state, s')
                → load_state config ops ready.user state times.now ≡ some loaded
                → OnOk
                    (λ f. P f.e_response)
                    (decide crypto times stack config request ops ready.user loaded))
            → OnGrant P (
                with_state crypto modules userops stateops times stack config request reply ops
                  ready.user
                  (config.timeout - times.get_ns)
                  got)
        fetched (none, s') h = λ e. absurd (service_err≢ok e)
        fetched (some state, s') h =
            with_loaded-OnGrant config request reply ops ready.user
              (config.timeout - times.get_ns - times.state_ns) state s' _
              (λ loaded. h state loaded s' refl)

  pub OnGrant-returned :
      (P : Bytes → Type 0) (v : Verified S) {r : Reply} {s : S}
      → v ≡ returned r s
      → OnGrant P v
      → r.rc ≡ ok
      → P r.passcode
  OnGrant-returned P v eq = subst (OnGrant P) eq
