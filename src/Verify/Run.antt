-- ===== src/Verify/Run.antt =====
-- otp.c, verify(): the jumps out of the straight path.
use otpd.Base.{Bool, true, false}
use otpd.Otp.{Rc}

-- `goto auth_done`, `goto auth_done_service_err`, each with `rc`, and what C leaves undefined.
pub data Jump : Type 0 where
  auth_done : Rc → Jump
  auth_done_service_err : Rc → Jump
  undefined : Jump

-- A block of verify(): it falls through with a value, or jumps.
pub data Run (A : Type 0) : Type 0 where
  go : A → Run A
  jump : Jump → Run A

infixl 5 ◌>>=◌ ◌>>◌
abbrev pub ◌>>=◌ : {A B : Type 0} → Run A → (A → Run B) → Run B
go a >>= f = f a
jump j >>= f = jump j

abbrev pub ◌>>◌ : {B : Type 0} → Run (Unit {0}) → Run B → Run B
m >> k = m >>= λ _. k

abbrev pub jump_if : Bool → Jump → Run (Unit {0})
jump_if true j = jump j
jump_if false j = go tt
