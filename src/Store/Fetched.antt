-- ===== src/Store/Fetched.antt =====
-- state.c, state_get_global(): the state that a manager sends is the one that the call returns.
use otpd.Base.{
  ℕ, zero, suc, ◌+◌, ◌-◌, ◌^◌, ◌≤◌, ◌<◌, ◌≡◌, refl, ap, sym, ◌∙◌, true, false, if◌then◌else◌, ltb,
  some, [], ◌∷◌, ◌++◌, Bytes, IsByte, length, length-append, take, drop, All, arith,
}
use mathlib.Core.List.{append_assoc}
use mathlib.Core.Logic.{inr}
use otpd.Otp.{User, State}
use otpd.Helix.{helix_magic}
use otpd.Gsmd.{Gsmd, gsmd_get}
use otpd.Nonce.{nonce32}
use otpd.Gsm.{Streamid, nonce_of, padded, seal}
use otpd.Gsm.Packet.{ack, open_message}
use otpd.Gsm.Exchange.{
  received, Network, Loop, Outcome, replied, Next, again, done, failed, Call, run, round, receive,
  judged, timed_out, reason_text, signals, while_left, start_loop, exchange, next_seq,
}
use otpd.Gsm.Sealed.{open_message-seal}
use otpd.Gsm.Text.{buffer_of}
use otpd.Gsm.Message.{take-length, drop-length, length-nonce_of}
use otpd.Store.Text.{state_parse, state_unparse}
use otpd.Store.Text.Laws.{IsPrintable, restored, state_parse-state_unparse}
use otpd.Store.Global.{
  Link, Net, Managers, get_text, reply_area, parsed_reply, got_reply, linked_get, manager_get,
  state_get_global,
}

take-long : (n : ℕ) (xs : Bytes) → length xs ≤ n → take n xs ≡ xs
take-long zero [] short = refl
take-long zero (x ∷ xs) short = absurd (omega (arith, short))
take-long (suc n) [] short = refl
take-long (suc n) (x ∷ xs) short = ap (λ t. x ∷ t) (take-long n xs (omega (arith, short)))

-- The area of the state in the buffer of a reply.
reply_area-buffer_of :
    (streamid : Streamid) (username state z : Bytes) (seq : ℕ)
    → reply_area
        (length username)
        (length (b'A' ∷ b' ' ∷ (username ++ b' ' ∷ state)) + 1)
        (buffer_of streamid username (b' ' ∷ state) z seq)
      ≡ state ++ 0 ∷ []
unfolding reply_area
reply_area-buffer_of streamid username state z seq =
    let text = b'A' ∷ b' ' ∷ (username ++ b' ' ∷ state) in
    let n = nonce_of streamid (length text + 1) b'A' seq in
    let front = b'A' ∷ b' ' ∷ (username ++ b' ' ∷ []) in
    let behind = state ++ 0 ∷ z in
    let split : n ++ (b'A' ∷ b' ' ∷ (username ++ (b' ' ∷ state ++ 0 ∷ z)))
        ≡ (n ++ front) ++ behind =
      sym (
        append_assoc n front behind
        ∙ ap (λ t. n ++ b'A' ∷ b' ' ∷ t) (append_assoc username (b' ' ∷ []) behind)) in
    let place : length (n ++ front) ≡ 16 + (3 + length username) = omega (
      arith,
      length-append n front,
      length-append username (b' ' ∷ []),
      length-nonce_of streamid (length text + 1) b'A' seq,
    ) in
    let size : length (state ++ 0 ∷ []) ≡ length text + 1 - (3 + length username) =
      omega (arith, length-append state (0 ∷ []), length-append username (b' ' ∷ state)) in
    ap (take (length text + 1 - (3 + length username))) (
      ap (drop (16 + (3 + length username))) split
      ∙ drop-length (n ++ front) behind (16 + (3 + length username)) place
      ∙ sym (append_assoc state (0 ∷ []) z))
    ∙ take-length (state ++ 0 ∷ []) z (length text + 1 - (3 + length username)) size

round-ack :
    (call : Call) (loop : Loop) (message buffer : Bytes) (len elapsed : ℕ)
    → length message ≤ 968
    → 35 + length call.username ≤ length message
    → open_message call.gsmd.scontext call.username call.seq loop.buffer message ≡ (buffer, ack len)
    → round call loop (received message) elapsed ≡ done (replied len buffer)
unfolding round receive judged
round-ack call loop message buffer len elapsed short enough opens =
    let size : ltb (length message) (35 + length call.username) ≡ false = ground (arith, enough) in
    let opened = open_message call.gsmd.scontext call.username call.seq loop.buffer message in
    ap (receive call elapsed loop) (take-long 968 message short)
    ∙ ap (λ b. if b then done (failed false) else judged elapsed loop opened.0 opened.1) size
    ∙ ap (λ r. judged elapsed loop r.0 r.1) opens

-- How the loop goes on behind a round.
abbrev resume : Call → Network → Next → Outcome
resume call network r = elim r [ again next ↦ run call next network | done outcome ↦ outcome ]

-- A call whose first event is a reply that is opened as an ACK.
run-ack :
    (call : Call) (loop : Loop) (message buffer : Bytes) (len elapsed : ℕ) (network : Network)
    → 250000000 ≤ loop.timeout
    → length message ≤ 968
    → 35 + length call.username ≤ length message
    → open_message call.gsmd.scontext call.username call.seq loop.buffer message ≡ (buffer, ack len)
    → run call loop ((received message, elapsed) ∷ network) ≡ replied len buffer
unfolding run while_left
run-ack call loop message buffer len elapsed network left short enough opens =
    let in_time : ltb loop.timeout 250000000 ≡ false = ground (arith, left) in
    ap
      (λ b.
        if b
        then timed_out (reason_text loop.buffer loop.reason) (signals call loop.failover)
        else resume call network (round call loop (received message) elapsed))
      in_time
    ∙ ap (resume call network) (round-ack call loop message buffer len elapsed short enough opens)

nonce32-lt : (seq : ℕ) → nonce32 seq < 2 ^ 32
unfolding nonce32
nonce32-lt seq = omega arith

got_reply-text :
    (user : User) (state blank : State) (link : Link) (managers : Managers) (streamid : Streamid)
    (z : Bytes) (seq : ℕ)
    → IsPrintable user state
    → got_reply user blank link managers (
        replied
          (length (b'A' ∷ b' ' ∷ (user.username ++ b' ' ∷ state_unparse user state)) + 1)
          (buffer_of streamid user.username (b' ' ∷ state_unparse user state) z seq))
      ≡ some
          (some (record (restored blank state) { locked = true; updated = false }, link), managers)
unfolding got_reply parsed_reply
got_reply-text user state blank link managers streamid z seq printable =
    ap (λ r. some (parsed_reply link r, managers))
      (ap (λ area. state_parse area user.username blank)
          (reply_area-buffer_of streamid user.username (state_unparse user state) z seq)
        ∙ state_parse-state_unparse user state printable blank)

-- A GET of a user whose manager is configured, over a socket that can be made, with at least 250 ms
-- left. The manager has the same key, and its reply "A user state" carries the text that
-- state_unparse() wrote of a state, sealed under any stream and the number of this GET. Then the
-- message exists, and when it is the first that arrives, the call returns the state that was
-- written, locked and not updated.
pub state_get_global-seal :
    (timeout elapsed : ℕ) (user : User) (state blank : State) (managers : Managers) (g : Gsmd)
    (stack : Bytes) (later : Network) (streamid : Streamid)
    → gsmd_get user.gsmd managers.chains ≡ some g
    → g.scontext.magic ≡ helix_magic
    → IsPrintable user state
    → All IsByte (padded (b'A' ∷ b' ' ∷ (user.username ++ b' ' ∷ state_unparse user state)))
    → length (b'A' ∷ b' ' ∷ (user.username ++ b' ' ∷ state_unparse user state)) + 1 ≤ 936
    → 250000000 ≤ timeout
    → let seq = nonce32 managers.nonce_seq in
      (message : Bytes) × (seal g.scontext streamid seq
          (b'A' ∷ b' ' ∷ (user.username ++ b' ' ∷ state_unparse user state))
        ≡ some message)
      × (state_get_global timeout user blank
            (record {
              socket_ok = true;
              connect_ok = true;
              ioctl_ok = true;
              stack = stack;
              network = (received message, elapsed) ∷ later;
            })
            managers
          ≡ some (
            some (
              record (restored blank state) { locked = true; updated = false },
              record { g = g; active = g.active; seq = seq },
            ),
            record managers { nonce_seq = seq },
          ))
unfolding state_get_global manager_get linked_get next_seq exchange start_loop get_text
state_get_global-seal timeout elapsed user state blank managers g stack later streamid known magic
      printable bytes short left =
    let seq = nonce32 managers.nonce_seq in
    let text = state_unparse user state in
    let len = length (b'A' ∷ b' ' ∷ (user.username ++ b' ' ∷ text)) + 1 in
    let (message, z, sealed, enough, fits, opens) =
      open_message-seal g.scontext streamid seq user.username (b' ' ∷ text) stack magic bytes
        (inr (text, refl)) short (nonce32-lt managers.nonce_seq) in
    let net : Net = record {
      socket_ok = true;
      connect_ok = true;
      ioctl_ok = true;
      stack = stack;
      network = (received message, elapsed) ∷ later;
    } in
    let link : Link = record { g = g; active = g.active; seq = seq } in
    let call : Call = record { gsmd = g; active = g.active; username = user.username; seq = seq } in
    let rest : Managers = record managers { nonce_seq = seq } in
    (
      message,
      sealed,
      ap (manager_get timeout user blank net managers) known
          ∙ ap (got_reply user blank link rest) (
              run-ack call (start_loop timeout stack) message
                (buffer_of streamid user.username (b' ' ∷ text) z seq) len elapsed later left fits
                enough opens)
          ∙ got_reply-text user state blank link rest streamid z seq printable,
    )
