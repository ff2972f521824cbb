-- ===== src/Store/Global.antt =====
-- state.c, state_get_global() and state_put_global(): the state of a user at a state manager.
use otpd.Base.{
  ℕ, ◌+◌, ◌-◌, Bool, true, false, Option, none, some, ◌∷◌, ◌++◌, ◌&&◌, if◌then◌else◌, length, take,
  drop, Bytes, bytes_eq,
}
use otpd.Otp.{User, State}
use otpd.Gsmd.{Gsmd, Chains, gsmd_get}
use otpd.Gsm.{Streamid}
use otpd.Gsm.Exchange.{
  Network, Outcome, replied, failed, timed_out, pending, Call, exchange, next_seq,
}
use otpd.Store.Text.{state_parse, state_unparse}

-- `l.g` of a state: the manager, the host that was active at the GET, and the sequence number. The
-- socket is open while the state has the link.
pub record Link : Type 0 where
  pub g : Gsmd
  pub active : ℕ
  pub seq : ℕ

-- Whether socket(), connect() and ioctl() succeed, the octets that the stack holds where the reply
-- goes, and the events of gsmd().
pub record Net : Type 0 where
  pub socket_ok : Bool
  pub connect_ok : Bool
  pub ioctl_ok : Bool
  pub stack : Bytes
  pub network : Network

-- What both calls read and write outside their arguments: the managers, `streamid`, the static
-- number of nonce32(), and how often the failover threads were signalled.
pub record Managers : Type 0 where
  pub chains : Chains
  pub streamid : Streamid
  pub nonce_seq : ℕ
  pub posts : Bytes → ℕ

unfoldable pub post : Bool → Gsmd → Managers → Managers
post false gsmd managers = managers
post true gsmd managers = record managers {
  posts = λ name. if bytes_eq name gsmd.name then managers.posts name + 1 else managers.posts name;
}

-- "G user"
unfoldable pub get_text : User → Bytes
get_text user = b'G' ∷ b' ' ∷ user.username

-- "P user state", or "P user" for a state that is only released.
unfoldable pub put_text : User → State → Bytes
unfolding state_unparse
put_text user state =
    if state.updated
    then b'P' ∷ b' ' ∷ (user.username ++ b' ' ∷ state_unparse user state)
    else b'P' ∷ b' ' ∷ user.username

-- The state in a reply of `len` octets.
unfoldable pub reply_area : ℕ → ℕ → Bytes → Bytes
reply_area ulen len buffer = take (len - (3 + ulen)) (drop (16 + (3 + ulen)) buffer)

unfoldable pub parsed_reply : Link → Option State → Option (State × Link)
parsed_reply link none = none
parsed_reply link (some state) = some (record state { locked = true; updated = false }, link)

-- Behind gsmd() in state_get_global(); the outer `none` is a call that is still running.
unfoldable pub got_reply :
    User → State → Link → Managers → Outcome → Option (Option (State × Link) × Managers)
unfolding post reply_area parsed_reply state_parse
got_reply user state link managers (replied len buffer) =
    let area = reply_area (length user.username) len buffer in
    some (parsed_reply link (state_parse area user.username state), managers)
got_reply user state link managers (failed signal) = some (none, post signal link.g managers)
got_reply user state link managers (timed_out _ signal) = some (none, post signal link.g managers)
got_reply user state link managers (pending _) = none

-- With the manager found and the socket connected.
unfoldable pub linked_get :
    ℕ → User → State → Net → Managers → Gsmd → Option (Option (State × Link) × Managers)
unfolding next_seq exchange get_text got_reply
linked_get timeout user state net managers g =
    let (nonce_seq, seq) = next_seq b'G' managers.nonce_seq 0 in
    let call : Call = record { gsmd = g; active = g.active; username = user.username; seq = seq } in
    let (sent, outcome) =
      exchange managers.streamid timeout call (get_text user) net.stack net.network in
    got_reply user state (record { g = g; active = g.active; seq = seq })
      (record managers { nonce_seq = nonce_seq }) outcome

-- The manager, if there is one by the user's name for it, and the socket.
unfoldable pub manager_get :
    ℕ → User → State → Net → Managers → Option Gsmd → Option (Option (State × Link) × Managers)
unfolding linked_get
manager_get timeout user state net managers none = some (none, managers)
manager_get timeout user state net managers (some g) =
    if net.socket_ok && (net.connect_ok && net.ioctl_ok)
    then linked_get timeout user state net managers g
    else some (none, managers)

-- The state with its link, or `none` inside for -1.
unfoldable pub state_get_global :
    ℕ → User → State → Net → Managers → Option (Option (State × Link) × Managers)
unfolding gsmd_get manager_get
state_get_global timeout user state net managers =
    manager_get timeout user state net managers (gsmd_get user.gsmd managers.chains)

-- Behind gsmd() in state_put_global(): `false` is -1. The socket is closed in any case.
unfoldable pub put_reply : Link → State → Managers → Outcome → Option (Bool × State × Managers)
unfolding post
put_reply link state managers (replied _ _) = some (true, record state { locked = false }, managers)
put_reply link state managers (failed signal) = some (false, state, post signal link.g managers)
put_reply link state managers (timed_out _ signal) =
    some (false, state, post signal link.g managers)
put_reply link state managers (pending _) = none

unfoldable pub state_put_global :
    ℕ → User → State → Link → Net → Managers → Option (Bool × State × Managers)
unfolding next_seq exchange put_text put_reply
state_put_global timeout user state link net managers =
    let (nonce_seq, seq) = next_seq b'P' managers.nonce_seq link.seq in
    let call : Call = record {
      gsmd = link.g;
      active = link.active;
      username = user.username;
      seq = seq;
    } in
    let (sent, outcome) =
      exchange managers.streamid timeout call (put_text user state) net.stack net.network in
    put_reply link state (record managers { nonce_seq = nonce_seq }) outcome
