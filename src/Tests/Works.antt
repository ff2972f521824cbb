-- ===== src/Tests/Works.antt =====
-- work_thread.c: the theorems at concrete inputs.
use otpd.Base.{
  subst, ap, if◌then◌else◌, ltb, ℕ, ◌≤◌, Bool, true, false, some, [], ◌∷◌, ◌++◌, ◌≡◌, refl,
  replicate, arith, length,
}
use otpd.Otp.{Chap, Request, Reply, Config}
use otpd.Tests.{config, reply, request, pass}
use otpd.Verify.Session.{Verified, returned}
use otpd.Work.{RawRequest, RequestV1, passes, validate, convert_v1}
use otpd.Work.Fit.{IsFit, validate-IsFit}
use otpd.Work.Convert.{fields_of, validate-convert_v1}
use otpd.Work.Stream.{octets}
use otpd.Work.Thread.{Layout, work_thread}
use otpd.Work.Served.{Leaves, work_thread-Leaves}
use otpd.Word.{le_word}

abbrev pub no_chap : Chap
no_chap = record { challenge = []; clen = 0; response = []; rlen = 0 }

-- The request of "joe" with the passcode 000007.
abbrev pub raw : RawRequest
raw = record {
  username = b'j' ∷ b'o' ∷ b'e' ∷ replicate 29 0;
  challenge = replicate 17 0;
  pwe = 1;
  passcode = pass 7 ++ replicate 42 0;
  chap = no_chap;
  allow_async = 0;
  allow_sync = 1;
  challenge_delay = 0;
  resync = 1;
}

accepted : validate raw ≡ passes (request 7)
unfolding validate
accepted = refl

validate-IsFit_example : IsFit (request 7)
validate-IsFit_example = validate-IsFit raw (request 7) accepted

abbrev pub v1 : RequestV1
v1 = record {
  username = raw.username;
  challenge = raw.challenge;
  pwe = 3;
  passcode = raw.passcode;
  chap = record { challenge = replicate 16 1; clen = 16; response = replicate 50 2; rlen = 17 };
  allow_async = 0;
  allow_sync = 1;
  challenge_delay = 0;
  resync = 1;
}

validate-convert_v1_example : validate (convert_v1 raw v1) ≡ validate (fields_of v1)
validate-convert_v1_example = validate-convert_v1 raw v1

-- A service that keeps the length of the longest name that it was asked for.
abbrev longest : Config → Request → Reply → ℕ → Verified ℕ
longest settings asked answer n =
    returned answer (if ltb n (length asked.username) then length asked.username else n)

abbrev IsShort : ℕ → Type 0
IsShort n = n ≤ 31

abbrev kept_of : Verified ℕ → ℕ
kept_of (returned answer n) = n
kept_of _ = 0

longest-IsShort :
    (asked : Request) (answer answer' : Reply) (n n' : ℕ)
    → IsFit asked
    → IsShort n
    → longest (record config { timeout = 5 }) asked answer n ≡ returned answer' n'
    → IsShort n'
longest-IsShort asked answer answer' n n' fit short e =
    subst IsShort (ap kept_of e) (either (ltb n (length asked.username)))
  where
    either : (b : Bool) → IsShort (if b then length asked.username else n)
    either true = fit.username
    either false = short

abbrev pub layout : Layout
layout = record {
  size_v2 = 6;
  size_v1 = 8;
  size_reply = 4;
  version = λ s. le_word s;
  decode_v2 = λ s. raw;
  decode_v1 = λ s. v1;
}

work_thread-Leaves_example : Leaves IsShort (
    work_thread layout longest config 5 raw reply 0
      (octets (2 ∷ 0 ∷ 0 ∷ 0 ∷ []) ∷ octets (9 ∷ 9 ∷ []) ∷ [])
      ((some 4 ∷ []) ∷ []))
work_thread-Leaves_example =
    work_thread-Leaves layout longest config 5 IsShort longest-IsShort raw reply 0
      (octets (2 ∷ 0 ∷ 0 ∷ 0 ∷ []) ∷ octets (9 ∷ 9 ∷ []) ∷ []) ((some 4 ∷ []) ∷ []) (omega arith)
