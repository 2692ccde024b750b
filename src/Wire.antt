-- ===== src/Wire.antt =====
-- What both retrieval clients share: little-endian integers as `struct` packs them, and the reads
-- of a socket before a deadline (recserve_pilot/transport.py, recserve_app/retrieval.py).
pub mod Receiving
pub mod Numbers
use recserve.Prelude.{
  ℕ, zero, suc, ◌+◌, ◌-◌, ◌*◌, ◌/◌, ◌%◌, Option, none, some, List, [], ◌∷◌, ◌++◌, length, take,
  drop, leb, ltb, if◌then◌else◌,
}
use recserve.Exec.{Result, ok, err}

-- the little-endian bytes of an unsigned number, `width` of them
unfoldable pub pack : ℕ → ℕ → List ℕ
pack zero n = []
pack (suc width) n = (n % 256) ∷ pack width (n / 256)

unfoldable pub unpack : List ℕ → ℕ
unpack [] = 0
unpack (b ∷ bs) = b + 256 * unpack bs

-- What `recv` meets: some bytes that have arrived (none of them when the peer has closed), or the
-- end of the time that is left. More bytes than asked for stay for the next read.
pub data Arrival : Type 0 where
  bytes : List ℕ → Arrival
  expired : Arrival

pub data Fault : Type 0 where
  timeout disconnected malformed : Fault

-- Once `n` bytes are there the rest waits. No arrival at all is the end of the time too.
unfoldable pub exact_from : ℕ → List ℕ → List Arrival → Result Fault (List ℕ × List Arrival)
exact_from n output [] = if leb n (length output) then ok (output, []) else err timeout
exact_from n output (expired ∷ later) =
    if leb n (length output) then ok (output, expired ∷ later) else err timeout
exact_from n output (bytes [] ∷ later) =
    if leb n (length output) then ok (output, bytes [] ∷ later) else err disconnected
exact_from n output (bytes part ∷ later) =
    let room = n - length output in
    let rest = exact_from n (output ++ part) later in
    if leb n (length output)
    then ok (output, bytes part ∷ later)
    else if leb (length part) room
    then rest
    else ok (output ++ take room part, bytes (drop room part) ∷ later)

-- `exact(n)` and `receive(n)`
unfoldable pub exact : ℕ → List Arrival → Result Fault (List ℕ × List Arrival)
unfolding exact_from
exact n arrivals = exact_from n [] arrivals

-- `struct.unpack_from` of `width` bytes at `offset`
unfoldable pub number_at : ℕ → ℕ → List ℕ → ℕ
unfolding unpack
number_at offset width buffer = unpack (take width (drop offset buffer))
