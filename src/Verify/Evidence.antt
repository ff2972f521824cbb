-- ===== src/Verify/Evidence.antt =====
-- otp.c, verify(): a reply that grants has its evidence.
use otpd.Base.{◌-◌, ◌≡◌, refl, subst, Option, none, some, List, Bytes}
use otpd.Crypto.{Crypto}
use otpd.Otp.{ok, Request, Reply, Config, User, State}
use otpd.Cardops.{Cardops}
use otpd.Verify.Run.{Jump, Run, go, jump}
use otpd.Verify.Setup.{find_cardops, static_password, Ready, setup}
use otpd.Verify.Frame.{Frame, decided, Times}
use otpd.Verify.Decide.{load_state, decide}
use otpd.Verify.Session.{
  UserLookup, found, not_found, unavailable, Userops, StateOps, blank_state, returned, after_setup,
  with_card, with_lookup, verify,
}
use otpd.Verify.Grant.{IsResponse, OnOk-self, OnOk-decided_ok, decide-Answered}
use otpd.Verify.OnGrant.{service_err≢ok, OnGrant, OnGrant-returned, with_user-OnGrant}
use otpd.Verify.Refuse.{Refuses, auth_done-refused, service-refused, setup-Refuses}

module _ {S : Type 0} (crypto : Crypto) (modules : List Cardops) (userops : Userops)
    (stateops : StateOps S) (times : Times) (stack : Bytes) where
  -- What stands behind a granted passcode: a static password that is right, or the decision for the
  -- token that the user's card names, on the state that was fetched and loaded.
  pub data Evidence (config : Config) (request : Request) (s : S) (passcode : Bytes) : Type 0 where
    static :
        (user : User) (password : Bytes)
        → userops request.username config times.now ≡ found user
        → user.password ≡ some password
        → static_password crypto request user password ≡ ok
        → Evidence config request s passcode
    token :
        (user : User) (ops : Cardops) (ready : Ready) (state loaded : State) (s' : S)
        (frame : Frame)
        → userops request.username config times.now ≡ found user
        → user.password ≡ none
        → find_cardops modules user.card ≡ some ops
        → setup crypto config request ops user blank_state ≡ go ready
        → stateops.get
            (record config { timeout = config.timeout - times.get_ns })
            ready.user
            ready.state
            s
          ≡ (some state, s')
        → load_state config ops ready.user state times.now ≡ some loaded
        → decide crypto times stack config request ops ready.user loaded ≡ decided ok frame
        → frame.e_response ≡ passcode
        → Evidence config request s passcode

  after_setup-Evidence :
      (config : Config) (request : Request) (reply : Reply) (user : User) (ops : Cardops) (s : S)
      → userops request.username config times.now ≡ found user
      → user.password ≡ none
      → find_cardops modules user.card ≡ some ops
      → (run : Run Ready) → Refuses run
      → setup crypto config request ops user blank_state ≡ run
      → OnGrant
          (Evidence config request s)
          (after_setup crypto modules userops stateops times stack config request reply ops run s)
  unfolding after_setup
  after_setup-Evidence config request reply user ops s eu ep eo (go ready) r er =
      with_user-OnGrant crypto modules userops stateops times stack (Evidence config request s)
        config request reply ops ready s
        λ state loaded s' got load.
          OnOk-self (decide crypto times stack config request ops ready.user loaded)
            λ f granted. token user ops ready state loaded s' f eu ep eo er got load granted refl
  after_setup-Evidence config request reply user ops s eu ep eo (jump (Jump.auth_done rc)) r er =
      λ e. absurd (auth_done-refused rc r e)
  after_setup-Evidence config request reply user ops s eu ep eo
        (jump (Jump.auth_done_service_err rc)) r er =
      λ e. absurd (service-refused rc r e)
  after_setup-Evidence config request reply user ops s eu ep eo (jump Jump.undefined) r er = tt

  with_card-Evidence :
      (config : Config) (request : Request) (reply : Reply) (user : User) (s : S)
      → userops request.username config times.now ≡ found user
      → (ops : Option Cardops) → find_cardops modules user.card ≡ ops
      → (password : Option Bytes) → user.password ≡ password
      → OnGrant (Evidence config request s) (
          with_card crypto modules userops stateops times stack config request reply user s ops
            password)
  unfolding with_card
  with_card-Evidence config request reply user s eu none eo password ep =
      λ e. absurd (service_err≢ok e)
  with_card-Evidence config request reply user s eu (some ops) eo (some password) ep =
      λ e. static user password eu ep e
  with_card-Evidence config request reply user s eu (some ops) eo none ep =
      after_setup-Evidence config request reply user ops s eu ep eo _
        (setup-Refuses crypto config request ops user blank_state) refl

  with_lookup-Evidence :
      (config : Config) (request : Request) (reply : Reply) (s : S) (u : UserLookup)
      → userops request.username config times.now ≡ u
      → OnGrant
          (Evidence config request s)
          (with_lookup crypto modules userops stateops times stack config request reply s u)
  unfolding with_lookup
  with_lookup-Evidence config request reply s not_found eu = λ e. absurd (cc)
  with_lookup-Evidence config request reply s unavailable eu = λ e. absurd (cc)
  with_lookup-Evidence config request reply s (found user) eu =
      with_card-Evidence config request reply user s eu _ refl _ refl

  pub verify-Evidence :
      (config : Config) (request : Request) (reply reply' : Reply) (s s' : S)
      → verify crypto modules userops stateops times stack config request reply s
        ≡ returned reply' s'
      → reply'.rc ≡ ok
      → Evidence config request s reply'.passcode
  unfolding verify
  verify-Evidence config request reply reply' s s' eq granted =
      OnGrant-returned crypto modules userops stateops times stack (Evidence config request s) _ eq
        (with_lookup-Evidence config request reply s _ refl) granted

  -- The user was found, and either the static password passed its test, or the token's response
  -- passed.
  pub data Proven (config : Config) (request : Request) (passcode : Bytes) : Type 0 where
    by_password :
        (user : User) (password : Bytes)
        → userops request.username config times.now ≡ found user
        → user.password ≡ some password
        → static_password crypto request user password ≡ ok
        → Proven config request passcode
    by_token :
        (user : User) (ops : Cardops) (ready : Ready)
        → userops request.username config times.now ≡ found user
        → user.password ≡ none
        → find_cardops modules user.card ≡ some ops
        → setup crypto config request ops user blank_state ≡ go ready
        → IsResponse crypto config request ops ready.user times passcode
        → Proven config request passcode

  Evidence-Proven :
      (config : Config) (request : Request) (s : S) (passcode : Bytes)
      → Evidence config request s passcode
      → Proven config request passcode
  Evidence-Proven config request s passcode (static user password eu ep e) =
      by_password user password eu ep e
  Evidence-Proven config request s passcode
        (token user ops ready state loaded s' frame eu ep eo er got load granted e) =
      by_token user ops ready eu ep eo er (
        subst (IsResponse crypto config request ops ready.user times) e (
          OnOk-decided_ok (λ f. IsResponse crypto config request ops ready.user times f.e_response)
            granted (decide-Answered crypto config request ops ready.user times stack loaded)))

  -- Whenever verify() replies OTP_RC_OK, the user was found, and either has a static password that
  -- passed its test, or has none and got through the setup, and the passcode of the reply is a
  -- response that the user's token computed, joined with the PIN, against which the passcode of the
  -- request was compared equal.
  pub verify-Proven :
      (config : Config) (request : Request) (reply reply' : Reply) (s s' : S)
      → verify crypto modules userops stateops times stack config request reply s
        ≡ returned reply' s'
      → reply'.rc ≡ ok
      → Proven config request reply'.passcode
  verify-Proven config request reply reply' s s' eq granted =
      Evidence-Proven config request s _
        (verify-Evidence config request reply reply' s s' eq granted)
