-- ===== src/Work/Fit.antt =====
-- work_thread.c: what a request that is handed to verify() satisfies.
use otpd.Base.{
  passed, passed_not, branches, ℕ, zero, suc, ◌≤◌, false, ltb, ltb→le, ◌==◌, ==→eq, [], ◌∷◌, Bytes,
  cstr, get_or, length, ◌≡◌, ap, subst, arith, inl, inr,
}
use otpd.Otp.{Pwe, pap, chap, mschap, mschap2, Request}
use otpd.Work.{
  RawRequest, Checked, passes, bad_charset, request_of, check_pap, check_chap, check_mschap,
  check_mschap2, check_pwe, validate,
}

-- The sizes that otp.c relies on.
abbrev pub IsFitPwe : Pwe → Type 0
IsFitPwe (pap passcode) = length passcode ≤ 47
IsFitPwe (chap c) = (c.clen ≤ 16) × (c.rlen ≡ 17)
IsFitPwe (mschap c) = (c.clen ≡ 8) × (c.rlen ≡ 50) × (get_or c.response 1 0 ≡ 1)
IsFitPwe (mschap2 c) = (c.clen ≡ 16) × (c.rlen ≡ 50)

pub record IsFit (request : Request) : Type 0 where
  pub username : length request.username ≤ 31
  pub charset : bad_charset request.username ≡ false
  pub challenge : length request.challenge ≤ 16
  pub pwe : IsFitPwe request.pwe

-- A NUL at place `n` of an array ends its string there or before.
length-cstr : (n : ℕ) (s : Bytes) → get_or s n 0 ≡ 0 → length (cstr s) ≤ n
unfolding cstr
length-cstr n [] nul = omega arith
length-cstr zero (c ∷ s) nul = rw nul (omega arith)
length-cstr (suc n) (c ∷ s) nul = ground (arith, length-cstr n s nul)

request_or : Request → Checked → Request
request_or default (passes request) = request
request_or default _ = default

passes-request : {p q : Request} → passes p ≡ passes q → p ≡ q
unfolding request_or
passes-request {p = p} e = ap (request_or p) e

-- What the tests before the switch leave.
abbrev IsNamed : RawRequest → Type 0
IsNamed raw =
    (get_or raw.username 31 0 ≡ 0)
    × (bad_charset (cstr raw.username) ≡ false)
    × (get_or raw.challenge 16 0 ≡ 0)

request_of-IsFit :
    (raw : RawRequest) (pwe : Pwe) (request : Request)
    → IsNamed raw
    → IsFitPwe pwe
    → passes (request_of raw pwe) ≡ passes request
    → IsFit request
unfolding request_of
request_of-IsFit raw pwe request (username, charset, challenge) fit e =
    subst IsFit (passes-request e) (record {
      username = length-cstr 31 raw.username username;
      charset = charset;
      challenge = length-cstr 16 raw.challenge challenge;
      pwe = fit;
    })

check_pap-IsFit :
    (raw : RawRequest) (request : Request)
    → IsNamed raw
    → check_pap raw ≡ passes request
    → IsFit request
unfolding check_pap
check_pap-IsFit raw request named h =
    let (term, h₁) = passed (get_or raw.passcode 47 0 == 0) h (λ e. cc) in
    request_of-IsFit raw _ request named (length-cstr 47 raw.passcode (==→eq _ 0 term)) h₁

check_chap-IsFit :
    (raw : RawRequest) (request : Request)
    → IsNamed raw
    → check_chap raw ≡ passes request
    → IsFit request
unfolding check_chap
check_chap-IsFit raw request named h =
    let (clen, h₁) = passed_not (ltb 16 raw.chap.clen) h (λ e. cc) in
    let (rlen, h₂) = passed (raw.chap.rlen == 17) h₁ (λ e. cc) in
    request_of-IsFit raw (chap raw.chap) request named (ltb→le 16 _ clen, ==→eq _ 17 rlen) h₂

check_mschap-IsFit :
    (raw : RawRequest) (request : Request)
    → IsNamed raw
    → check_mschap raw ≡ passes request
    → IsFit request
unfolding check_mschap
check_mschap-IsFit raw request named h =
    let (clen, h₁) = passed (raw.chap.clen == 8) h (λ e. cc) in
    let (rlen, h₂) = passed (raw.chap.rlen == 50) h₁ (λ e. cc) in
    let (flag, h₃) = passed (get_or raw.chap.response 1 0 == 1) h₂ (λ e. cc) in
    request_of-IsFit raw (mschap raw.chap) request named
      (==→eq _ 8 clen, ==→eq _ 50 rlen, ==→eq _ 1 flag) h₃

check_mschap2-IsFit :
    (raw : RawRequest) (request : Request)
    → IsNamed raw
    → check_mschap2 raw ≡ passes request
    → IsFit request
unfolding check_mschap2
check_mschap2-IsFit raw request named h =
    let (clen, h₁) = passed (raw.chap.clen == 16) h (λ e. cc) in
    let (rlen, h₂) = passed (raw.chap.rlen == 50) h₁ (λ e. cc) in
    request_of-IsFit raw (mschap2 raw.chap) request named (==→eq _ 16 clen, ==→eq _ 50 rlen) h₂

check_pwe-IsFit :
    (raw : RawRequest) (request : Request)
    → IsNamed raw
    → check_pwe raw ≡ passes request
    → IsFit request
unfolding check_pwe
check_pwe-IsFit raw request named h = elim (branches (raw.pwe == 1) h) [
  | inl e ↦ check_pap-IsFit raw request named e
  | inr h₁ ↦ elim (branches (raw.pwe == 3) h₁) [
    | inl e ↦ check_chap-IsFit raw request named e
    | inr h₂ ↦ elim (branches (raw.pwe == 5) h₂) [
      | inl e ↦ check_mschap-IsFit raw request named e
      | inr h₃ ↦ elim (branches (raw.pwe == 7) h₃) [
        | inl e ↦ check_mschap2-IsFit raw request named e
        | inr h₄ ↦ absurd cc
      ]
    ]
  ]
]

-- A request that is handed to verify() has a user name of at most 31 octets, which is not "!" and
-- has none of = < > * ~, a challenge of at most 16, and a passcode of at most 47 octets or the
-- lengths of its CHAP, MS-CHAP (with the flag of the NT response) or MS-CHAPv2 fields.
pub validate-IsFit :
    (raw : RawRequest) (request : Request) → validate raw ≡ passes request → IsFit request
unfolding validate
validate-IsFit raw request h =
    let (username, h₁) = passed (get_or raw.username 31 0 == 0) h (λ e. cc) in
    let (charset, h₂) = passed_not (bad_charset (cstr raw.username)) h₁ (λ e. cc) in
    let (challenge, h₃) = passed (get_or raw.challenge 16 0 == 0) h₂ (λ e. cc) in
    check_pwe-IsFit raw request (==→eq _ 0 username, charset, ==→eq _ 0 challenge) h₃
