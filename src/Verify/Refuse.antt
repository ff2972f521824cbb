-- ===== src/Verify/Refuse.antt =====
-- otp.c, verify(): no jump out of the setup carries OTP_RC_OK.
use otpd.Base.{
  ℕ, ◌≡◌, ◌+◌, ◌-◌, Bool, true, false, not, ◌&&◌, Option, none, some, ◌==◌, ltb, length,
}
use otpd.Crypto.{Crypto}
use otpd.Otp.{Rc, ok, Request, Config, User, State, EncryptMode, response_len}
use otpd.Cardops.{Cardops}
use otpd.Xfunc.{a2x}
use otpd.Verify.Run.{
  Jump, auth_done, auth_done_service_err, undefined, Run, go, jump, ◌>>=◌, jump_if,
}
use otpd.Verify.Setup.{is_pap, passcode, pin_modes, decrypt_user, known_pin_len, or_jump, setup}

abbrev pub RefusesJump : Jump → Type 0
RefusesJump (auth_done ok) = ⊥
RefusesJump (auth_done_service_err ok) = ⊥
RefusesJump _ = Unit

-- A block that jumps only with a code other than OTP_RC_OK.
abbrev pub Refuses : {A : Type 0} → Run A → Type 0
Refuses (go a) = Unit
Refuses (jump j) = RefusesJump j

pub auth_done-refused : (rc : Rc) → RefusesJump (auth_done rc) → rc ≡ ok → ⊥
auth_done-refused ok r e = r
auth_done-refused _ r e = cc

pub service-refused : (rc : Rc) → RefusesJump (auth_done_service_err rc) → rc ≡ ok → ⊥
service-refused ok r e = r
service-refused _ r e = cc

Refuses-bind :
    {A B : Type 0} (m : Run A) (f : A → Run B)
    → Refuses m
    → ((a : A) → Refuses (f a))
    → Refuses (m >>= f)
Refuses-bind (go a) f p q = q a
Refuses-bind (jump j) f p q = p

Refuses-if : (b : Bool) (j : Jump) → RefusesJump j → Refuses (jump_if b j)
Refuses-if true j p = p
Refuses-if false j p = tt

Refuses-or : {A : Type 0} (o : Option A) (j : Jump) → RefusesJump j → Refuses (or_jump o j)
Refuses-or none j p = p
Refuses-or (some a) j p = tt

module _ (crypto : Crypto) (config : Config) (request : Request) where
  pin_modes-Refuses :
      (user : User) (otp_len pin_len : ℕ) (hashed : Bool)
      → Refuses (pin_modes crypto config request user otp_len pin_len hashed)
  unfolding pin_modes
  pin_modes-Refuses user otp_len pin_len hashed =
      Refuses-bind _ _ (Refuses-if (not (is_pap request.pwe)) _ tt) λ _.
        Refuses-bind _ _ (Refuses-if (not (pin_len == 0)) _ tt) λ _.
          Refuses-bind _ _ (Refuses-if (ltb (length (passcode request.pwe)) otp_len) _ tt) λ _.
            Refuses-bind _ _ (Refuses-if (ltb 16 (length (passcode request.pwe) - otp_len)) _ tt)
              λ _. tt

  decrypt_user-Refuses :
      (user : User) (otp_len pin_len : ℕ) (mode : EncryptMode)
      → Refuses (decrypt_user crypto config request user otp_len pin_len mode)
  unfolding decrypt_user
  decrypt_user-Refuses user otp_len pin_len EncryptMode.pin =
      pin_modes-Refuses user otp_len pin_len false
  decrypt_user-Refuses user otp_len pin_len EncryptMode.pinmd5 =
      pin_modes-Refuses user otp_len pin_len true
  decrypt_user-Refuses user otp_len pin_len EncryptMode.keyid = tt
  decrypt_user-Refuses user otp_len pin_len EncryptMode.clear = tt

  pub setup-Refuses :
      (ops : Cardops) (user : User) (state : State)
      → Refuses (setup crypto config request ops user state)
  unfolding setup
  setup-Refuses ops user state =
      Refuses-bind _ _ (Refuses-or (ops.name2fm user state) _ tt) λ (u₁, s₁).
        Refuses-bind _ _ (Refuses-or (ops.keystring2key u₁ s₁) _ tt) λ (u₂, s₂).
          Refuses-bind _ _ (Refuses-or (a2x u₂.pinstring) undefined tt) λ p.
            Refuses-bind _ _ (decrypt_user-Refuses _ _ _ u₂.encryptmode) λ (u₄, pin_len).
              Refuses-bind _ _
                (Refuses-if
                  (known_pin_len u₄.encryptmode
                    && (is_pap request.pwe
                        && not (
                            response_len u₁.featuremask + pin_len
                            == length (passcode request.pwe))))
                  _ tt)
                λ _. tt
