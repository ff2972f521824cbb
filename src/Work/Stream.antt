-- ===== src/Work/Stream.antt =====
-- work_thread.c: the loops around read() and write().
pub mod Laws
use otpd.Base.{
  ℕ, zero, suc, ◌+◌, ◌-◌, ltb, leb, if◌then◌else◌, List, [], ◌∷◌, ◌++◌, Bytes, length, Option, none,
  some,
}

-- What read() gives: -1, 0 or some octets, no more than are asked for.
pub data Chunk : Type 0 where
  read_error : Chunk
  end_of_file : Chunk
  octets : Bytes → Chunk

-- All octets, with what the socket gives afterwards; a return from the thread; or a call that still
-- waits.
pub data Filled : Type 0 where
  filled : Bytes → List Chunk → Filled
  read_closed : Filled
  read_waits : Filled

-- `while (nread < size)`, with the octets that were read before.
unfoldable pub read_loop : ℕ → Bytes → List Chunk → Filled
read_loop size done [] = if leb size (length done) then filled done [] else read_waits
read_loop size done (Chunk.read_error ∷ chunks) =
    if leb size (length done) then filled done (Chunk.read_error ∷ chunks) else read_closed
read_loop size done (Chunk.end_of_file ∷ chunks) =
    if leb size (length done) then filled done (Chunk.end_of_file ∷ chunks) else read_closed
read_loop size done (octets s ∷ chunks) =
    let rest = read_loop size (done ++ s) chunks in
    if leb size (length done) then filled done (octets s ∷ chunks) else rest

-- Whether the whole reply was written, for what write() returns: -1 or a number of octets.
pub data WriteEnd : Type 0 where
  wrote : WriteEnd
  write_closed : WriteEnd
  write_waits : WriteEnd

-- `while (nwrote < size)`
unfoldable pub write_loop : ℕ → ℕ → List (Option ℕ) → WriteEnd
write_loop size nwrote [] = if leb size nwrote then wrote else write_waits
write_loop size nwrote (none ∷ results) = if leb size nwrote then wrote else write_closed
write_loop size nwrote (some n ∷ results) =
    let rest = write_loop size (nwrote + n) results in if leb size nwrote then wrote else rest
