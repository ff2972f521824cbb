-- ===== src/Otpauth.antt =====
-- otpauth.c: the client that asks otpd for one passcode, and tells what was replied.
pub mod Laws
use otpd.Base.{
  ℕ, zero, suc, ◌+◌, ◌-◌, ◌%◌, Bool, true, false, not, ◌&&◌, if◌then◌else◌, ltb, leb, ◌==◌, Option,
  none, some, List, [], ◌∷◌, ◌++◌, Bytes, length, take, drop, get_or,
}
use otpd.Otp.{
  Rc, ok, user_unknown, authinfo_unavail, auth_err, maxtries, service_err, nextpasscode, ipin,
}
use otpd.Work.{RawRequest}

-- An `int`: `negsuc n` is -(n + 1).
pub data ℤ : Type 0 where
  pos : ℕ → ℤ
  negsuc : ℕ → ℤ

-- The values of OTP_RC_*.
unfoldable pub rc_value : Rc → ℕ
rc_value ok = 0
rc_value user_unknown = 1
rc_value authinfo_unavail = 2
rc_value auth_err = 3
rc_value maxtries = 4
rc_value service_err = 5
rc_value nextpasscode = 6
rc_value ipin = 7

-- `otp_reply_t`, as it is received.
pub record RawReply : Type 0 where
  pub version : ℤ
  pub rc : ℤ
  pub passcode : Bytes

-- `strcpy(a, s)`, over what the array held.
abbrev pub strcpy : Bytes → Bytes → Bytes
strcpy s a = s ++ 0 ∷ drop (suc (length s)) a

-- `a[n] = '\0'`
abbrev pub terminate : ℕ → Bytes → Bytes
terminate n a = take n a ++ 0 ∷ drop (suc n) a

-- The request that verify() builds, in a structure that holds `stack` before. The lengths are
-- tested, so that each text fits its array.
unfoldable pub build_request : RawRequest → Bytes → Bytes → RawRequest
build_request stack username passcode = record stack {
  username = terminate 31 (strcpy username stack.username);
  challenge = terminate 16 (strcpy [] stack.challenge);
  pwe = 1;
  passcode = terminate 47 (strcpy passcode stack.passcode);
  allow_sync = 1;
  allow_async = 0;
  challenge_delay = 0;
  resync = 1;
}

-- What read() gives: -1 with EINTR, -1 for another reason, 0, or some octets.
pub data ClientRead : Type 0 where
  interrupted : ClientRead
  refused : ClientRead
  disconnected : ClientRead
  some_octets : Bytes → ClientRead

-- The octets that otp_read() puts into the buffer; -1; or a call that still waits.
pub data ReadEnd : Type 0 where
  full : Bytes → ReadEnd
  read_fails : ReadEnd
  read_hangs : ReadEnd

-- otp_read(), with the octets that were read before.
unfoldable pub otp_read : ℕ → Bytes → List ClientRead → ReadEnd
otp_read len done [] = if leb len (length done) then full done else read_hangs
otp_read len done (interrupted ∷ reads) =
    let rest = otp_read len done reads in if leb len (length done) then full done else rest
otp_read len done (refused ∷ reads) = if leb len (length done) then full done else read_fails
otp_read len done (disconnected ∷ reads) = if leb len (length done) then full done else read_fails
otp_read len done (some_octets s ∷ reads) =
    let rest = otp_read len (done ++ s) reads in if leb len (length done) then full done else rest

-- What write() returns: -1 with EINTR, -1 for another reason, or a number of octets.
pub data ClientWrite : Type 0 where
  write_interrupted : ClientWrite
  write_refused : ClientWrite
  accepted : ℕ → ClientWrite

-- Whether otp_write() returns 0 or -1, and the octets that were sent before it did.
pub data Sent : Type 0 where
  sent : Bytes → Sent
  send_fails : Bytes → Sent
  send_hangs : Bytes → Sent

-- otp_write() with the octets that are left; write() takes no more than those.
unfoldable pub otp_write : Bytes → Bytes → List ClientWrite → Sent
otp_write out [] writes = sent out
otp_write out (c ∷ left) [] = send_hangs out
otp_write out (c ∷ left) (write_interrupted ∷ writes) = otp_write out (c ∷ left) writes
otp_write out (c ∷ left) (write_refused ∷ writes) = send_fails out
otp_write out (c ∷ left) (accepted n ∷ writes) =
    otp_write (out ++ take n (c ∷ left)) (drop n (c ∷ left)) writes

-- What the client's system gives: the size of `sun_path`, whether socket() and connect() succeed, and
-- what write() and read() return.
pub record System : Type 0 where
  pub sun_path : ℕ
  pub socket_ok : Bool
  pub connect_ok : Bool
  pub writes : List ClientWrite
  pub reads : List ClientRead

-- Whether otp_connect() returns a descriptor.
unfoldable pub otp_connect : System → Bytes → Bool
otp_connect system path =
    not (ltb (system.sun_path - 1) (length path)) && (system.socket_ok && system.connect_ok)

-- The compiler's layout of both structures.
pub record ClientLayout : Type 0 where
  pub encode : RawRequest → Bytes
  pub size_reply : ℕ
  pub decode : Bytes → RawReply

-- What the client comes to: a value of `rc`, -1 among them, or a call that still waits.
pub data Asked : Type 0 where
  told : ℤ → Asked
  hangs : Asked

unfoldable pub checked_reply : RawReply → ℤ
checked_reply reply = elim reply.version [
  | pos n ↦
      if not (n == 1)
      then negsuc 0
      else if not (get_or reply.passcode 47 0 == 0)
      then negsuc 0
      else reply.rc
  | negsuc n ↦ negsuc 0
]

unfoldable pub read_reply : ClientLayout → ReadEnd → Asked
unfolding checked_reply
read_reply layout (full s) = told (checked_reply (layout.decode s))
read_reply layout read_fails = told (negsuc 0)
read_reply layout read_hangs = hangs

unfoldable pub await_reply : ClientLayout → List ClientRead → Sent → Asked
unfolding read_reply otp_read
await_reply layout reads (sent out) = read_reply layout (otp_read layout.size_reply [] reads)
await_reply layout reads (send_fails out) = told (negsuc 0)
await_reply layout reads (send_hangs out) = hangs

unfoldable pub otp_verify : ClientLayout → System → Bytes → RawRequest → Asked
unfolding await_reply otp_write otp_connect
otp_verify layout system path request =
    if not (otp_connect system path)
    then told (negsuc 0)
    else await_reply layout system.reads (otp_write [] (layout.encode request) system.writes)

-- verify() of the client.
unfoldable pub ask : ClientLayout → System → RawRequest → Bytes → Bytes → Bytes → Asked
unfolding otp_verify build_request rc_value
ask layout system stack path username passcode =
    if ltb 31 (length username)
    then told (pos (rc_value auth_err))
    else if ltb 47 (length passcode)
    then told (pos (rc_value auth_err))
    else otp_verify layout system path (build_request stack username passcode)
