-- ===== src/Work/Convert.antt =====
-- work_thread.c: a request of version 1 is judged as the request of version 2 with its fields.
use otpd.Base.{not, if◌then◌else◌, ◌==◌, cstr, get_or, ◌≡◌, refl, ap, inl, inr, Bool-cases}
use otpd.Work.{
  RawRequest, RequestV1, convert_v1, closes, bad_charset, request_of, check_pap, check_chap,
  check_mschap, check_mschap2, check_pwe, validate,
}

-- The fields of a request of version 1.
unfoldable pub fields_of : RequestV1 → RawRequest
fields_of v1 = record {
  username = v1.username;
  challenge = v1.challenge;
  pwe = v1.pwe;
  passcode = v1.passcode;
  chap = v1.chap;
  allow_async = v1.allow_async;
  allow_sync = v1.allow_sync;
  challenge_delay = v1.challenge_delay;
  resync = v1.resync;
}

check_pwe-convert_v1 :
    (old : RawRequest) (v1 : RequestV1) → check_pwe (convert_v1 old v1) ≡ check_pwe (fields_of v1)
unfolding check_pwe check_pap check_chap check_mschap check_mschap2 request_of convert_v1 fields_of
check_pwe-convert_v1 old v1 = elim (Bool-cases (v1.pwe == 1)) [
  | inl e ↦ rw e refl
  | inr e ↦ rw e refl
]

-- The conversion of a request of version 1 changes nothing that the tests or verify() see,
-- whatever the memory held before.
pub validate-convert_v1 :
    (old : RawRequest) (v1 : RequestV1) → validate (convert_v1 old v1) ≡ validate (fields_of v1)
unfolding validate convert_v1 fields_of
validate-convert_v1 old v1 =
    ap
      (λ r.
        if not (get_or v1.username 31 0 == 0)
        then closes
        else if bad_charset (cstr v1.username)
        then closes
        else if not (get_or v1.challenge 16 0 == 0)
        then closes
        else r)
      (check_pwe-convert_v1 old v1)
