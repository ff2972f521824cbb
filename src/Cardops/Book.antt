-- ===== src/Cardops/Book.antt =====
-- cardops.h: what a token's operations leave alone. The failure count, the time of the last
-- authentication and the flags of a state are verify()'s own.
use otpd.Base.{ℕ, ◌≡◌, refl, ◌∙◌, Option, none, some, Bytes}
use otpd.Otp.{Rc, Config, User, State}
use otpd.Cardops.{Cardops, Challenged, next, early, failed}

pub record SameBook (a b : State) : Type 0 where
  pub failcount : b.failcount ≡ a.failcount
  pub authtime : b.authtime ≡ a.authtime
  pub nullstate : b.nullstate ≡ a.nullstate
  pub locked : b.locked ≡ a.locked

pub SameBook-refl : (a : State) → SameBook a a
SameBook-refl a = record { failcount = refl; authtime = refl; nullstate = refl; locked = refl }

pub SameBook-trans : {a b c : State} → SameBook a b → SameBook b c → SameBook a c
SameBook-trans p q = record {
  failcount = q.failcount ∙ p.failcount;
  authtime = q.authtime ∙ p.authtime;
  nullstate = q.nullstate ∙ p.nullstate;
  locked = q.locked ∙ p.locked;
}

abbrev pub ChallengedBook : State → Challenged → Type 0
ChallengedBook a (next b _) = SameBook a b
ChallengedBook a (early b _) = SameBook a b
ChallengedBook a failed = Unit

abbrev pub UpdatedBook : State → Option State → Type 0
UpdatedBook a none = Unit
UpdatedBook a (some b) = SameBook a b

-- The laws that a token type owes to verify().
pub record KeepsBook (ops : Cardops) : Type 0 where
  pub challenge_book :
      (user : User) (state : State) (challenge : Bytes) (now t e : ℕ)
      → ChallengedBook state (ops.challenge user state challenge now t e)
  pub updatecsd_book :
      (state : State) (now t e : ℕ) (rc : Rc) → UpdatedBook state (ops.updatecsd state now t e rc)
  pub nullstate_book :
      (config : Config) (user : User) (state : State) (now : ℕ)
      → UpdatedBook state (ops.nullstate config user state now)
