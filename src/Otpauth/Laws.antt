-- ===== src/Otpauth/Laws.antt =====
-- otpauth.c and work_thread.c: what the client asks is what the thread verifies, and what it tells is
-- what the thread replied.
use otpd.Base.{
  ℕ, zero, suc, ◌≤◌, ◌≡◌, refl, ap, ap₂, sym, ◌∙◌, arith, true, false, ltb, Option, List, [], ◌∷◌,
  ◌++◌, map, Bytes, cstr, get_or, length, take, drop, take-append-drop, Without,
}
use mathlib.Core.List.{append_assoc, append-nil}
use otpd.Otp.{pap, Request, Reply, Config}
use otpd.Verify.Session.{Verified, returned}
use otpd.Work.{RawRequest, passes, bad_charset, request_of, check_pap, check_pwe, validate}
use otpd.Work.Stream.{Chunk, octets, wrote, write_closed, write_waits, write_loop}
use otpd.Work.Stream.Laws.{joined, Fills, read_loop-joined}
use otpd.Work.Thread.{
  Layout, Turn, served, closed, waits, got_request, received_v2, receive_rest, receive_request,
  send_reply, verified, answer_checked, answer_received, turn,
}
use otpd.Otpauth.{
  pos, rc_value, strcpy, terminate, build_request, full, otp_read, ClientWrite, write_interrupted,
  write_refused, accepted, Sent, sent, send_fails, send_hangs, otp_write, System, otp_connect,
  ClientLayout, told, checked_reply, read_reply, await_reply, otp_verify, ask,
}

-- A string that is copied into an array ends where it did.
cstr-terminate :
    (n : ℕ) (s r : Bytes) → length s ≤ n → Without 0 s → cstr (terminate n (s ++ 0 ∷ r)) ≡ s
unfolding cstr
cstr-terminate zero [] r fits text = refl
cstr-terminate (suc n) [] r fits text = refl
cstr-terminate zero (c ∷ s) r fits text = absurd (omega (arith, fits))
cstr-terminate (suc n) (c ∷ s) r fits text =
    rw text.0 (ap (λ t. c ∷ t) (cstr-terminate n s r (omega (arith, fits)) text.1))

get_or-terminate : (n : ℕ) (a : Bytes) → n ≤ length a → get_or (terminate n a) n 0 ≡ 0
get_or-terminate zero a fits = refl
get_or-terminate (suc n) [] fits = absurd (omega (arith, fits))
get_or-terminate (suc n) (c ∷ a) fits = get_or-terminate n a (omega (arith, fits))

-- A copy does not shorten an array.
length-strcpy : (s a : Bytes) → length a ≤ length (strcpy s a)
length-strcpy [] [] = omega arith
length-strcpy [] (c ∷ a) = omega arith
length-strcpy (b ∷ s) [] = omega arith
length-strcpy (b ∷ s) (c ∷ a) = omega (arith, length-strcpy s a)

-- What verify() of otp.c is to get.
abbrev pub asked : Bytes → Bytes → Request
asked username passcode = record {
  username = username;
  challenge = [];
  pwe = pap passcode;
  allow_async = false;
  allow_sync = true;
  challenge_delay = 0;
  resync = true;
}

module _ (raw : RawRequest) where
  validate-pap :
      get_or raw.username 31 0 ≡ 0
      → bad_charset (cstr raw.username) ≡ false
      → get_or raw.challenge 16 0 ≡ 0
      → raw.pwe ≡ 1
      → get_or raw.passcode 47 0 ≡ 0
      → validate raw ≡ passes (request_of raw (pap (cstr raw.passcode)))
  unfolding validate check_pwe check_pap
  validate-pap username charset challenge pwe passcode =
      simp (username, charset, challenge, pwe, passcode)

module _ (stack : RawRequest) (username passcode : Bytes)
    (username_array : length stack.username ≡ 32) (challenge_array : length stack.challenge ≡ 17)
    (passcode_array : length stack.passcode ≡ 48) where
  -- A request that the client builds from texts that fit, with a user name that otpd takes, passes
  -- the tests of the thread, and verify() gets both texts as they were given, whatever the structure
  -- held before.
  pub validate-build_request :
      length username ≤ 31
      → length passcode ≤ 47
      → Without 0 username
      → Without 0 passcode
      → bad_charset username ≡ false
      → validate (build_request stack username passcode) ≡ passes (asked username passcode)
  unfolding build_request request_of
  validate-build_request short fits name text charset =
      validate-pap (build_request stack username passcode)
        (get_or-terminate 31 (strcpy username stack.username)
          (omega (arith, length-strcpy username stack.username)))
        (ap bad_charset name_back ∙ charset)
        (get_or-terminate 16 (strcpy [] stack.challenge)
          (omega (arith, length-strcpy [] stack.challenge)))
        refl
        (get_or-terminate 47 (strcpy passcode stack.passcode)
          (omega (arith, length-strcpy passcode stack.passcode)))
      ∙ ap₂ (λ u p. passes (asked u p)) name_back (cstr-terminate 47 passcode _ fits text)
    where
      name_back : cstr (terminate 31 (strcpy username stack.username)) ≡ username
      name_back = cstr-terminate 31 username _ short name

octets_of : Sent → Bytes
octets_of (sent out) = out
octets_of (send_fails out) = out
octets_of (send_hangs out) = out

-- Where otp_write() returns 0, all octets were sent once and in order, however write() cut them.
otp_write-sent :
    (out left : Bytes) (writes : List ClientWrite) (all : Bytes)
    → otp_write out left writes ≡ sent all
    → all ≡ out ++ left
unfolding otp_write octets_of
otp_write-sent out [] writes all e = sym (ap octets_of e) ∙ sym (append-nil out)
otp_write-sent out (c ∷ left) [] all e = absurd cc
otp_write-sent out (c ∷ left) (write_interrupted ∷ writes) all e =
    otp_write-sent out (c ∷ left) writes all e
otp_write-sent out (c ∷ left) (write_refused ∷ writes) all e = absurd cc
otp_write-sent out (c ∷ left) (accepted n ∷ writes) all e =
    otp_write-sent (out ++ take n (c ∷ left)) (drop n (c ∷ left)) writes all e
    ∙ append_assoc out (take n (c ∷ left)) (drop n (c ∷ left))
    ∙ ap (λ s. out ++ s) (take-append-drop n (c ∷ left))

module _ {S : Type 0} (client : ClientLayout) (layout : Layout) (system : System) (path : Bytes)
    (verify : Config → Request → Reply → S → Verified S) (config : Config) (timeout : ℕ)
    (stack : RawRequest) (username passcode : Bytes) (encode_reply : Reply → Bytes) where
  -- The request of the client.
  abbrev request : RawRequest
  request = build_request stack username passcode

  -- The octets that were sent, in the pieces in which the socket gives them: up to the version, and
  -- behind it.
  pub record Arrives (out : Bytes) (first second : List Bytes) : Type 0 where
    pub version_octets : Fills 4 [] first
    pub other_octets : Fills layout.size_v2 (joined [] first) second
    pub whole : joined (joined [] first) second ≡ out
    pub version : layout.version (joined [] first) ≡ 2
    pub decoded : layout.decode_v2 (client.encode request) ≡ request

  receive-request :
      (old : RawRequest) (out : Bytes) (first second : List Bytes) (later : List Chunk)
      → out ≡ client.encode request
      → Arrives out first second
      → receive_request layout old (map octets first ++ (map octets second ++ later))
        ≡ got_request request later
  unfolding receive_request receive_rest received_v2
  receive-request old out first second later sent_out arrives =
      ap (receive_rest layout old)
        (read_loop-joined 4 [] first (map octets second ++ later) arrives.version_octets)
      ∙ rw arrives.version (
          ap (received_v2 layout)
            (read_loop-joined layout.size_v2 (joined [] first) second later arrives.other_octets)
          ∙ ap (λ r. got_request r later)
              (ap layout.decode_v2 (arrives.whole ∙ sent_out) ∙ arrives.decoded))

  -- The octets of the reply are read as a whole by the client, and stand for it.
  pub record Returns (answer : Reply) : Type 0 where
    pub connects : otp_connect system path ≡ true
    pub comes_in : otp_read client.size_reply [] system.reads ≡ full (encode_reply answer)
    pub array : Bytes
    pub ended : get_or array 47 0 ≡ 0
    pub decoded :
        client.decode (encode_reply answer)
        ≡ record { version = pos 1; rc = pos (rc_value answer.rc); passcode = array }

  ask-told :
      (answer : Reply) (out : Bytes)
      → length username ≤ 31
      → length passcode ≤ 47
      → otp_write [] (client.encode request) system.writes ≡ sent out
      → Returns answer
      → ask client system stack path username passcode ≡ told (pos (rc_value answer.rc))
  unfolding ask otp_verify await_reply read_reply checked_reply
  ask-told answer out short fits goes_out returns =
      let a : ltb 31 (length username) ≡ false = ground arith in
      let b : ltb 47 (length passcode) ≡ false = ground arith in
      rw a (
        rw b (
          rw returns.connects (
            ap (await_reply client system.reads) goes_out
            ∙ ap (read_reply client) returns.comes_in
            ∙ ap (λ r. told (checked_reply r)) returns.decoded
            ∙ rw returns.ended refl)))

  turn-served :
      (old : RawRequest) (reply answer : Reply) (s s' : S) (out : Bytes) (first second : List Bytes)
      (later : List Chunk) (writes : List (Option ℕ))
      → out ≡ client.encode request
      → validate request ≡ passes (asked username passcode)
      → Arrives out first second
      → verify (record config { timeout = timeout }) (asked username passcode) reply s
        ≡ returned answer s'
      → write_loop layout.size_reply 0 writes ≡ wrote
      → turn layout verify config timeout old reply s
          (map octets first ++ (map octets second ++ later))
          writes
        ≡ served request answer s' later
  unfolding turn answer_received answer_checked verified send_reply
  turn-served old reply answer s s' out first second later writes sent_out valid arrives answered
        written =
      ap (answer_received layout verify config timeout reply s writes)
        (receive-request old out first second later sent_out arrives)
      ∙ ap (answer_checked layout verify config timeout request reply s later writes) valid
      ∙ ap (verified layout verify request later writes) answered
      ∙ ap
          (λ w. elim w as (λ _. Turn S) [
            | wrote ↦ served request answer s' later
            | write_closed ↦ closed s'
            | write_waits ↦ waits
          ])
          written

  -- The client and a thread that speak over a socket with one layout of the structures: where the
  -- client connects and write() takes its request, cut as it may be, these octets arrive in any pieces, verify() answers for
  -- these texts, and the reply is written and comes in, the thread serves exactly this request, its
  -- verify() gets the user name and the passcode as they were given to the client, without a
  -- challenge and with resync, and the client tells the value of the reply's `rc`.
  pub ask-turn :
      (old : RawRequest) (reply answer : Reply) (s s' : S) (out : Bytes) (first second : List Bytes)
      (later : List Chunk) (writes : List (Option ℕ))
      → (length stack.username ≡ 32) × (length stack.challenge ≡ 17) × (length stack.passcode ≡ 48)
      → length username ≤ 31
      → length passcode ≤ 47
      → Without 0 username
      → Without 0 passcode
      → bad_charset username ≡ false
      → otp_write [] (client.encode request) system.writes ≡ sent out
      → Arrives out first second
      → verify (record config { timeout = timeout }) (asked username passcode) reply s
        ≡ returned answer s'
      → write_loop layout.size_reply 0 writes ≡ wrote
      → Returns answer
      → (turn layout verify config timeout old reply s
            (map octets first ++ (map octets second ++ later))
            writes
          ≡ served request answer s' later)
        × (ask client system stack path username passcode ≡ told (pos (rc_value answer.rc)))
  ask-turn old reply answer s s' out first second later writes (u, c, p) short fits name text
        charset goes_out arrives answered written returns =
      (
        turn-served old reply answer s s' out first second later writes
            (otp_write-sent [] (client.encode request) system.writes out goes_out)
            (validate-build_request stack username passcode u c p short fits name text charset)
            arrives answered written,
        ask-told answer out short fits goes_out returns,
      )
