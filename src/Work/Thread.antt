-- ===== src/Work/Thread.antt =====
-- work_thread.c, work_thread(): the requests of a connection, one after the other.
use otpd.Base.{ℕ, if◌then◌else◌, ◌==◌, List, [], ◌∷◌, Bytes, Option}
use otpd.Otp.{auth_err, Request, Reply, Config}
use otpd.Verify.Session.{Verified, returned, undefined_behaviour}
use otpd.Work.{RawRequest, RequestV1, convert_v1, Checked, closes, auth_fails, passes, validate}
use otpd.Work.Stream.{
  Chunk, Filled, filled, read_closed, read_waits, read_loop, wrote, write_closed, write_waits,
  write_loop,
}

-- The compiler's layout of the structures: their sizes, and what their octets stand for. A
-- version is an `int` of 4 octets.
pub record Layout : Type 0 where
  pub size_v2 : ℕ
  pub size_v1 : ℕ
  pub size_reply : ℕ
  pub version : Bytes → ℕ
  pub decode_v2 : Bytes → RawRequest
  pub decode_v1 : Bytes → RequestV1

-- What one round of the thread does: it returns, with the connection closed; it goes on; a call
-- still waits; or verify() has no defined result.
pub data Turn (S : Type 0) : Type 0 where
  closed : S → Turn S
  served : RawRequest → Reply → S → List Chunk → Turn S
  waits : Turn S
  undefined : Turn S

-- The request behind its version: version 2 or 1, and no other.
pub data Received : Type 0 where
  got_request : RawRequest → List Chunk → Received
  no_request : Received
  incomplete : Received

unfoldable pub received_v2 : Layout → Filled → Received
received_v2 layout (filled s chunks) = got_request (layout.decode_v2 s) chunks
received_v2 layout read_closed = no_request
received_v2 layout read_waits = incomplete

unfoldable pub received_v1 : Layout → RawRequest → Filled → Received
unfolding convert_v1
received_v1 layout old (filled s chunks) = got_request (convert_v1 old (layout.decode_v1 s)) chunks
received_v1 layout old read_closed = no_request
received_v1 layout old read_waits = incomplete

unfoldable pub receive_rest : Layout → RawRequest → Filled → Received
unfolding received_v2 received_v1 read_loop
receive_rest layout old (filled s chunks) =
    if layout.version s == 2
    then received_v2 layout (read_loop layout.size_v2 s chunks)
    else if layout.version s == 1
    then received_v1 layout old (read_loop layout.size_v1 s chunks)
    else no_request
receive_rest layout old read_closed = no_request
receive_rest layout old read_waits = incomplete

unfoldable pub receive_request : Layout → RawRequest → List Chunk → Received
unfolding receive_rest read_loop
receive_request layout old chunks = receive_rest layout old (read_loop 4 [] chunks)

module _ {S : Type 0} (layout : Layout) (verify : Config → Request → Reply → S → Verified S) where
  -- `send_reply`
  unfoldable pub send_reply : RawRequest → Reply → S → List Chunk → List (Option ℕ) → Turn S
  unfolding write_loop
  send_reply raw reply s chunks writes = elim (write_loop layout.size_reply 0 writes) [
    | wrote ↦ served raw reply s chunks
    | write_closed ↦ closed s
    | write_waits ↦ waits
  ]

  unfoldable pub verified : RawRequest → List Chunk → List (Option ℕ) → Verified S → Turn S
  unfolding send_reply
  verified raw chunks writes (returned reply s) = send_reply raw reply s chunks writes
  verified raw chunks writes undefined_behaviour = undefined

  -- The configured `timeout` is set again for each request.
  unfoldable pub answer_checked :
      Config → ℕ → RawRequest → Reply → S → List Chunk → List (Option ℕ) → Checked → Turn S
  unfolding verified
  answer_checked config timeout raw reply s chunks writes closes = closed s
  answer_checked config timeout raw reply s chunks writes auth_fails =
      send_reply raw (record reply { rc = auth_err }) s chunks writes
  answer_checked config timeout raw reply s chunks writes (passes request) =
      verified raw chunks writes (verify (record config { timeout = timeout }) request reply s)

  unfoldable pub answer_received : Config → ℕ → Reply → S → List (Option ℕ) → Received → Turn S
  unfolding answer_checked validate
  answer_received config timeout reply s writes (got_request raw chunks) =
      answer_checked config timeout raw reply s chunks writes (validate raw)
  answer_received config timeout reply s writes no_request = closed s
  answer_received config timeout reply s writes incomplete = waits

  -- One round: the request before it is still in memory.
  unfoldable pub turn : Config → ℕ → RawRequest → Reply → S → List Chunk → List (Option ℕ) → Turn S
  unfolding answer_received receive_request
  turn config timeout old reply s chunks writes =
      answer_received config timeout reply s writes (receive_request layout old chunks)

  -- The rounds, with what write() returns in each.
  unfoldable pub work_thread :
      Config → ℕ → RawRequest → Reply → S → List Chunk → List (List (Option ℕ)) → Turn S
  unfolding turn
  work_thread config timeout old reply s chunks [] = served old reply s chunks
  work_thread config timeout old reply s chunks (writes ∷ rounds) =
      elim (turn config timeout old reply s chunks writes) [
        | served raw reply' s' chunks' ↦ work_thread config timeout raw reply' s' chunks' rounds
        | closed s' ↦ closed s'
        | waits ↦ waits
        | undefined ↦ undefined
      ]
