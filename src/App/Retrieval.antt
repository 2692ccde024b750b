-- ===== src/App/Retrieval.antt =====
-- The RSV2 client of the service: recserve_app/retrieval.py. A connection is the list of what arrives
-- on it; the tests of the time that is left, the addresses and the outcome of a send are what a session
-- meets. The conversion between floats and 32 bits is a parameter.
pub mod RoundTrip
pub mod Accepted
use recserve.Prelude.{
  ℕ, zero, suc, ◌+◌, ◌-◌, ◌*◌, ◌%◌, min, max, String, Bool, true, false, not, ◌&&◌, ◌||◌, Option,
  none, some, List, [], ◌∷◌, ◌++◌, any, all, map, length, take, drop, ltb, leb, ◌==◌, if◌then◌else◌,
}
use recserve.Exec.{Result, ok, err}
use recserve.Wire.{Arrival, Fault, timeout, disconnected, malformed, pack, number_at, exact}

-- a float as `struct` packs it, and `math.isfinite`
pub record FloatCodec (F : Type 0) : Type 0 where
  pub to_bits : F → ℕ
  pub of_bits : ℕ → F
  pub is_finite : F → Bool

abbrev pub magic : ℕ
magic = 0x52535632

-- an address: no time is left to try it, it refuses, its time runs out while it is tried, or a
-- connection on which something arrives
pub data Attempt : Type 0 where
  late refused slow : Attempt
  connected : List Arrival → Attempt

-- `connect`; the fault is that of the last address that was tried
unfoldable pub connect : Fault → List Attempt → Result Fault (List Arrival)
connect error [] = err error
connect error (late ∷ attempts) = err timeout
connect error (refused ∷ attempts) = connect disconnected attempts
connect error (slow ∷ attempts) = connect timeout attempts
connect error (connected arrivals ∷ attempts) = ok arrivals

-- what a query meets before the reply
pub record Session : Type 0 where
  pub late_before : Bool
  pub attempts : List Attempt
  pub late_after : Bool
  pub send_fault : Option Fault

-- equal lists of bytes
unfoldable pub same_bytes : List ℕ → List ℕ → Bool
same_bytes [] [] = true
same_bytes (a ∷ as') (b ∷ bs) = (a == b) && same_bytes as' bs
same_bytes _ _ = false

-- no row stands twice
unfoldable pub distinct_rows : {F : Type 0} → List (ℕ × F) → Bool
distinct_rows [] = true
distinct_rows ((row, _) ∷ rows) = not (any (λ r. r.0 == row) rows) && distinct_rows rows

module _ {F : Type 0} (codec : FloatCodec F) (digest : List ℕ) where
  unfoldable pub pack_floats : List F → List ℕ
  unfolding pack
  pack_floats [] = []
  pack_floats (x ∷ xs) = pack 4 (codec.to_bits x) ++ pack_floats xs

  -- the bytes sent for a query: `left` is the time left in microseconds
  unfoldable pub request : ℕ → ℕ → List F → ℕ → List ℕ
  unfolding pack pack_floats
  request rid left vector count =
      let payload =
        pack 8 rid
        ++ (pack 4 (min 1000000 (max 1 left))
            ++ (pack 4 (length vector) ++ (pack 4 count ++ (digest ++ pack_floats vector)))) in
      pack 4 magic ++ (pack 4 (length payload) ++ payload)

  -- `left` more items, from the one at `offset`
  unfoldable pub items_from : ℕ → ℕ → List ℕ → List (ℕ × F)
  items_from zero offset data_bytes = []
  items_from (suc left) offset data_bytes =
      (number_at offset 4 data_bytes, codec.of_bits (number_at (offset + 4) 4 data_bytes))
      ∷ items_from left (offset + 8) data_bytes

  -- the checks of an answer of `size` bytes to the query `rid` for `count` items
  unfoldable pub read_answer : ℕ → ℕ → ℕ → List ℕ → Result Fault (List (ℕ × F))
  read_answer rid count size data_bytes =
      let n = number_at 12 4 data_bytes in
      let items = items_from n 48 data_bytes in
      if not (number_at 0 8 data_bytes == rid)
        || (not (number_at 8 4 data_bytes == 0)
            || (not (same_bytes (take 32 (drop 16 data_bytes)) digest)
                || (ltb count n || not (size == 48 + 8 * n))))
      then err malformed
      else if not (distinct_rows items) || any (λ r. not (codec.is_finite r.1)) items
      then err malformed
      else ok items

  -- `not 48 <= size <= 48 + 512 * 8 or (size - 48) % 8`
  abbrev pub is_size : ℕ → Bool
  is_size size = leb 48 size && (leb size 4144 && ((size - 48) % 8 == 0))

  unfoldable pub read_reply : ℕ → ℕ → List ℕ → List Arrival → Result Fault (List (ℕ × F))
  read_reply rid count header arrivals =
      let size = number_at 4 4 header in
      if not (number_at 0 4 header == magic) || not (is_size size)
      then err malformed
      else elim (exact size arrivals) [
        | err x ↦ err x
        | ok (data_bytes, _) ↦ read_answer rid count size data_bytes
      ]

  -- the reply, after the query is sent
  unfoldable pub receive_reply : ℕ → ℕ → List Arrival → Result Fault (List (ℕ × F))
  receive_reply rid count arrivals = elim (exact 8 arrivals) [
    | err x ↦ err x
    | ok (header, later) ↦ read_reply rid count header later
  ]

  -- `_query`, with the random identity of the request
  unfoldable pub query_once : Session → ℕ → ℕ → Result Fault (List (ℕ × F))
  query_once s rid count =
      if s.late_before then err timeout else elim (connect disconnected s.attempts) [
        | err x ↦ err x
        | ok arrivals ↦
            if s.late_after
            then err timeout
            else elim s.send_fault [ some x ↦ err x | none ↦ receive_reply rid count arrivals ]
      ]

-- the label under which `query` counts an attempt
unfoldable pub outcome : {A : Type 0} → Result Fault A → String
outcome (ok a) = "success"
outcome (err timeout) = "timeout"
outcome (err disconnected) = "connection"
outcome (err malformed) = "protocol"
