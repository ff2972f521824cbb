-- ===== src/Card/Window/Laws.antt =====
-- cardops/hotp.c and cardops/cryptocard.c: the saved position is recognised one slot later.
use otpd.Base.{ℕ, ◌+◌, ◌^◌, ◌<◌, ◌≡◌, ◌≢◌, refl, ap, some, [], ◌∷◌, ◌==◌, not, ◌&&◌, Bytes, arith}
use otpd.Verify.Settle.{is_ok}
use otpd.Otp.{Rc, ok, State, u32}
use otpd.Stdio.{print_hex, scan_hex}
use otpd.Stdio.Laws.{print_hex-ne-nil, scan_hex-print_hex}
use otpd.Card.Window.{updatecsd, follows, isconsecutive_at, isconsecutive}

at_scan : (rd : Bytes) (e : ℕ) → rd ≢ [] → isconsecutive_at rd e ≡ follows (scan_hex rd) e
unfolding isconsecutive_at
at_scan [] e h = absurd (h refl)
at_scan (c ∷ rd) e h = refl

-- What updatecsd() saves for a refused passcode at slot e makes exactly slot e + 1 consecutive,
-- and what it saves for a grant makes no slot consecutive.
pub isconsecutive-updatecsd :
    (state : State) (e e' : ℕ) (rc : Rc)
    → e < 2 ^ 31
    → (saved : State) × (updatecsd state e rc ≡ some saved)
      × (isconsecutive saved e' ≡ (not (is_ok rc) && (e' == e + 1)))
unfolding updatecsd isconsecutive is_ok
isconsecutive-updatecsd state e e' ok fits =
    (record state { rd = [] }, refl, unfold isconsecutive_at in refl)
isconsecutive-updatecsd state e e' _ fits = (record state { rd = print_hex (u32 e) }, refl, saved)
  where
    saved : isconsecutive_at (print_hex (u32 e)) e' ≡ (e' == e + 1)
    saved =
        rw
          (
            at_scan _ e' (print_hex-ne-nil (u32 e) (omega arith)),
            scan_hex-print_hex (u32 e) (omega arith),
          )
          (unfold follows in ap (λ n. e' == n) (omega arith))
