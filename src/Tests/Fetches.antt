-- ===== src/Tests/Fetches.antt =====
-- state.c, state_get_global(): a GET whose manager answers with a saved state.
use otpd.Base.{
  ◌+◌, ◌≤◌, ◌≡◌, refl, Bool, true, false, ◌&&◌, ltb, some, [], ◌∷◌, ◌++◌, Bytes, IsByte, All, arith,
  length,
}
use otpd.Otp.{User}
use otpd.Tests.{user}
use otpd.Tests.Chains.{west, both}
use otpd.Tests.Tokens.{saved, printable}
use otpd.Card.Counter.{counter_bytes}
use otpd.Nonce.{nonce32}
use otpd.Gsmd.{gsmd_get, gsmd_hash}
use otpd.Gsmd.Laws.{configured}
use otpd.Gsm.{padded, seal}
use otpd.Gsm.Exchange.{received}
use otpd.Store.Text.{state_unparse}
use otpd.Store.Text.Laws.{IsPrintable, restored}
use otpd.Store.Global.{Managers, state_get_global}
use otpd.Store.Fetched.{state_get_global-seal}
use otpd.Verify.Session.{blank_state}

abbrev west_user : User
west_user = record user { gsmd = west.name }

west-IsPrintable : IsPrintable west_user saved
west-IsPrintable = record {
  username = printable.username;
  csd = printable.csd;
  csd_len = printable.csd_len;
  rd = printable.rd;
  rd_len = printable.rd_len;
  clen = printable.clen;
  octets = printable.octets;
  filled = printable.filled;
  failcount = printable.failcount;
  authtime = printable.authtime;
  mincardtime = printable.mincardtime;
}

abbrev managers : Managers
managers = record { chains = configured both; streamid = (5, 6); nonce_seq = 8; posts = λ name. 0 }

known : gsmd_get west_user.gsmd managers.chains ≡ some west
unfolding gsmd_get gsmd_hash
known = refl

is_octets : Bytes → Bool
is_octets [] = true
is_octets (a ∷ s) = ltb a 256 && is_octets s

octets_lem : (s : Bytes) → is_octets s ≡ true → All IsByte s
unfolding is_octets
octets_lem [] h = tt
octets_lem (a ∷ s) h = (ground arith, octets_lem s (ground arith))

-- "A joe 5:joe:..." with its NUL and padding.
abbrev text : Bytes
text = b'A' ∷ b' ' ∷ (west_user.username ++ b' ' ∷ state_unparse west_user saved)

text-IsByte : All IsByte (padded text)
unfolding padded state_unparse is_octets counter_bytes
text-IsByte = octets_lem (padded text) refl

text_short : length text + 1 ≤ 936
unfolding state_unparse counter_bytes
text_short = omega arith

state_get_global-seal_example :
    (message : Bytes) × (seal west.scontext (7, 7) (nonce32 8) text ≡ some message)
    × (state_get_global 2000000000 west_user blank_state
          (record {
            socket_ok = true;
            connect_ok = true;
            ioctl_ok = true;
            stack = [];
            network = (received message, 1000) ∷ [];
          })
          managers
        ≡ some (
          some (
            record (restored blank_state saved) { locked = true; updated = false },
            record { g = west; active = west.active; seq = nonce32 8 },
          ),
          record managers { nonce_seq = nonce32 8 },
        ))
state_get_global-seal_example =
    state_get_global-seal 2000000000 1000 west_user saved blank_state managers west [] [] (7, 7)
      known refl west-IsPrintable text-IsByte text_short (omega arith)
