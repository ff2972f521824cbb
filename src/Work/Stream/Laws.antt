-- ===== src/Work/Stream/Laws.antt =====
-- work_thread.c: however the octets of a request are cut, the loop puts them together.
use otpd.Base.{
  ℕ, ◌<◌, leb, le→leb, List, [], ◌∷◌, ◌++◌, map, Bytes, length, ◌≡◌, refl, arith, false,
}
use otpd.Work.Stream.{Chunk, octets, filled, read_loop}

-- The octets of the pieces, in order, behind those that were read before.
unfoldable pub joined : Bytes → List Bytes → Bytes
joined done [] = done
joined done (s ∷ pieces) = joined (done ++ s) pieces

-- Each piece is read while octets are missing, and the last completes the request.
unfoldable pub Fills : ℕ → Bytes → List Bytes → Type 0
unfolding joined
Fills size done [] = length done ≡ size
Fills size done (s ∷ pieces) = (length done < size) × Fills size (done ++ s) pieces

-- A request whose octets arrive in any pieces is read as a whole, and what follows it is left for
-- the next read.
pub read_loop-joined :
    (size : ℕ) (done : Bytes) (pieces : List Bytes) (later : List Chunk)
    → Fills size done pieces
    → read_loop size done (map octets pieces ++ later) ≡ filled (joined done pieces) later
unfolding Fills joined read_loop
read_loop-joined size done [] [] fills = rw (le→leb size (length done) (omega (arith, fills))) refl
read_loop-joined size done [] (Chunk.read_error ∷ later) fills =
    rw (le→leb size (length done) (omega (arith, fills))) refl
read_loop-joined size done [] (Chunk.end_of_file ∷ later) fills =
    rw (le→leb size (length done) (omega (arith, fills))) refl
read_loop-joined size done [] (octets s ∷ later) fills =
    rw (le→leb size (length done) (omega (arith, fills))) refl
read_loop-joined size done (s ∷ pieces) later fills =
    let more : leb size (length done) ≡ false = ground (arith, fills.0) in
    rw more (read_loop-joined size (done ++ s) pieces later fills.1)
