-- ===== src/Card/Window.antt =====
-- cardops/hotp.c and cardops/cryptocard.c: the saved window position, which both keep in `rd`.
pub mod Laws
use otpd.Base.{ℕ, ◌+◌, Bool, true, false, Option, none, some, [], ◌∷◌, ◌==◌, if◌then◌else◌, Bytes}
use otpd.Otp.{Rc, ok, State, u32}
use otpd.Stdio.{print_hex, scan_hex}

-- A grant clears the position, any other outcome saves the candidate.
unfoldable pub updatecsd : State → ℕ → Rc → Option State
unfolding print_hex
updatecsd state ewin ok = some (record state { rd = [] })
updatecsd state ewin _ = some (record state { rd = print_hex (u32 ewin) })

-- Whether `thisewin` is the position behind the saved one.
unfoldable pub follows : Option ℕ → ℕ → Bool
follows none thisewin = false
follows (some nextewin) thisewin = thisewin == u32 (nextewin + 1)

unfoldable pub isconsecutive_at : Bytes → ℕ → Bool
unfolding scan_hex follows
isconsecutive_at [] thisewin = false
isconsecutive_at (c ∷ rd) thisewin = follows (scan_hex (c ∷ rd)) thisewin

unfoldable pub isconsecutive : State → ℕ → Bool
unfolding isconsecutive_at
isconsecutive state thisewin = isconsecutive_at state.rd thisewin
