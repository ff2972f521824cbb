-- ===== src/Work/Served.antt =====
-- work_thread.c: what a connection can do to the state that verify() keeps.
use otpd.Base.{ℕ, List, [], ◌∷◌, Option, ◌≡◌, refl}
use otpd.Otp.{auth_err, Request, Reply, Config}
use otpd.Verify.Session.{Verified, returned, undefined_behaviour}
use otpd.Work.{RawRequest, Checked, closes, auth_fails, passes, validate}
use otpd.Work.Stream.{Chunk, WriteEnd, wrote, write_closed, write_waits, write_loop}
use otpd.Work.Fit.{IsFit, validate-IsFit}
use otpd.Work.Thread.{
  Layout, Turn, closed, served, waits, Received, got_request, no_request, incomplete,
  receive_request, send_reply, verified, answer_checked, answer_received, turn, work_thread,
}

-- The state that a round leaves, where it leaves one.
abbrev pub Leaves : {S : Type 0} → (S → Type 0) → Turn S → Type 0
Leaves P (closed s) = P s
Leaves P (served raw reply s chunks) = P s
Leaves P waits = Unit
Leaves P Turn.undefined = Unit

module _ {S : Type 0} (layout : Layout) (verify : Config → Request → Reply → S → Verified S)
    (config : Config) (timeout : ℕ) (P : S → Type 0)
    (kept : (request : Request) (reply reply' : Reply) (s s' : S)
      → IsFit request
      → P s
      → verify (record config { timeout = timeout }) request reply s ≡ returned reply' s'
      → P s') where
  send_reply-Leaves :
      (raw : RawRequest) (reply : Reply) (s : S) (chunks : List Chunk) (writes : List (Option ℕ))
      → P s
      → Leaves P (send_reply layout verify raw reply s chunks writes)
  unfolding send_reply
  send_reply-Leaves raw reply s chunks writes p = go (write_loop layout.size_reply 0 writes)
    where
      go :
          (w : WriteEnd)
          → Leaves P (elim w as (λ _. Turn S) [
            | wrote ↦ served raw reply s chunks
            | write_closed ↦ closed s
            | write_waits ↦ waits
          ])
      go wrote = p
      go write_closed = p
      go write_waits = tt

  verified-Leaves :
      (request : Request) (raw : RawRequest) (reply : Reply) (s : S) (chunks : List Chunk)
      (writes : List (Option ℕ)) (result : Verified S)
      → IsFit request
      → P s
      → verify (record config { timeout = timeout }) request reply s ≡ result
      → Leaves P (verified layout verify raw chunks writes result)
  unfolding verified
  verified-Leaves request raw reply s chunks writes (returned reply' s') fit p e =
      send_reply-Leaves raw reply' s' chunks writes (kept request reply reply' s s' fit p e)
  verified-Leaves request raw reply s chunks writes undefined_behaviour fit p e = tt

  answer_checked-Leaves :
      (raw : RawRequest) (reply : Reply) (s : S) (chunks : List Chunk) (writes : List (Option ℕ))
      (checked : Checked)
      → validate raw ≡ checked
      → P s
      → Leaves P (answer_checked layout verify config timeout raw reply s chunks writes checked)
  unfolding answer_checked
  answer_checked-Leaves raw reply s chunks writes closes e p = p
  answer_checked-Leaves raw reply s chunks writes auth_fails e p =
      send_reply-Leaves raw (record reply { rc = auth_err }) s chunks writes p
  answer_checked-Leaves raw reply s chunks writes (passes request) e p =
      verified-Leaves request raw reply s chunks writes
        (verify (record config { timeout = timeout }) request reply s)
        (validate-IsFit raw request e) p refl

  answer_received-Leaves :
      (reply : Reply) (s : S) (writes : List (Option ℕ)) (received : Received)
      → P s
      → Leaves P (answer_received layout verify config timeout reply s writes received)
  unfolding answer_received
  answer_received-Leaves reply s writes (got_request raw chunks) p =
      answer_checked-Leaves raw reply s chunks writes (validate raw) refl p
  answer_received-Leaves reply s writes no_request p = p
  answer_received-Leaves reply s writes incomplete p = tt

  -- A property of the state that verify() keeps, called with the configured timeout for requests
  -- whose fields are in bounds, holds behind every round of a connection, whatever the client sends.
  pub work_thread-Leaves :
      (old : RawRequest) (reply : Reply) (s : S) (chunks : List Chunk)
      (rounds : List (List (Option ℕ)))
      → P s
      → Leaves P (work_thread layout verify config timeout old reply s chunks rounds)
  unfolding work_thread turn
  work_thread-Leaves old reply s chunks [] p = p
  work_thread-Leaves old reply s chunks (writes ∷ rounds) p =
      go (λ raw reply' s' chunks' p'. work_thread-Leaves raw reply' s' chunks' rounds p')
        (turn layout verify config timeout old reply s chunks writes)
        (answer_received-Leaves reply s writes (receive_request layout old chunks) p)
    where
      go :
          ((raw : RawRequest) (reply' : Reply) (s' : S) (chunks' : List Chunk)
            → P s'
            → Leaves P (work_thread layout verify config timeout raw reply' s' chunks' rounds))
          → (t : Turn S) → Leaves P t
          → Leaves P (elim t as (λ _. Turn S) [
            | served raw reply' s' chunks' ↦
                work_thread layout verify config timeout raw reply' s' chunks' rounds
            | closed s' ↦ closed s'
            | waits ↦ waits
            | Turn.undefined ↦ Turn.undefined
          ])
      go more (served raw reply' s' chunks') p' = more raw reply' s' chunks' p'
      go more (closed s') p' = p'
      go more waits p' = tt
      go more Turn.undefined p' = tt
