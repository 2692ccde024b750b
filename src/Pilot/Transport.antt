-- ===== src/Pilot/Transport.antt =====
-- The RSV1 client of the pilot: `class Upstream` of recserve_pilot/transport.py. The connection is
-- the list of what arrives on it, and the conversion of 32 bits to a float is a parameter.
pub mod Accepted
use recserve.Prelude.{
  ℕ, zero, suc, ◌+◌, ◌*◌, String, Bool, not, ◌&&◌, ◌||◌, Option, none, some, List, [], ◌∷◌, ◌++◌,
  get_elem?, ltb, leb, ◌==◌, has_key, if◌then◌else◌,
}
use recserve.Exec.{Result, ok, err}
use recserve.Wire.{Arrival, Fault, malformed, pack, number_at, exact}

-- `struct.unpack` of a float, and `math.isfinite`
pub record FloatBits (F : Type 0) : Type 0 where
  pub of_bits : ℕ → F
  pub is_finite : F → Bool

abbrev pub magic : ℕ
magic = 0x52535631

-- The bytes sent for a query: `budget` is the time left, in microseconds.
unfoldable pub query : ℕ → ℕ → ℕ → List ℕ
unfolding pack
query user_row count budget =
    pack 4 magic
    ++ (pack 4 24
        ++ (pack 8 1 ++ (pack 4 user_row ++ (pack 4 count ++ (pack 4 count ++ pack 4 budget)))))

module _ {F : Type 0} (bits : FloatBits F) (item_ids : List String) where
  open bits use {of_bits, is_finite}

  -- `output[self.item_ids[item]] = score`, after the checks of the loop
  unfoldable pub add_item : Option String → F → List (String × F) → Result Fault (List (String × F))
  add_item none score output = err malformed
  add_item (some item) score output =
      if not (is_finite score) || has_key item output
      then err malformed
      else ok (output ++ (item, score) ∷ [])

  -- `left` more items, from the one at `offset`
  unfoldable pub read_items : ℕ → ℕ → List ℕ → List (String × F) → Result Fault (List (String × F))
  read_items zero offset buffer output = ok output
  read_items (suc left) offset buffer output =
      elim (add_item (get_elem? item_ids (number_at offset 4 buffer))
        (of_bits (number_at (offset + 4) 4 buffer)) output) [
          | err x ↦ err x
          | ok output' ↦ read_items left (offset + 8) buffer output'
        ]

  -- the body of a reply of `size` bytes to a query for `count` items
  unfoldable pub read_body : ℕ → ℕ → List ℕ → Result Fault (List (String × F))
  read_body count size body =
      let rid = number_at 0 8 body in
      let status = number_at 8 4 body in
      let n = number_at 12 4 body in
      if not (rid == 1) || not (status == 0) || ltb count n || not (size == 16 + n * 8)
      then err malformed
      else read_items n 16 body []

  read_frame : ℕ → List ℕ → List Arrival → Result Fault (List (String × F))
  read_frame count header arrivals =
      let size = number_at 4 4 header in
      if not (number_at 0 4 header == magic) || not (leb 16 size && leb size 4112)
      then err malformed
      else elim (exact size arrivals) [ err x ↦ err x | ok (body, _) ↦ read_body count size body ]

  -- `Upstream.retrieve`, after the query is sent
  unfoldable pub retrieve : ℕ → List Arrival → Result Fault (List (String × F))
  unfolding read_frame
  retrieve count arrivals = elim (exact 8 arrivals) [
    | err x ↦ err x
    | ok (header, later) ↦ read_frame count header later
  ]
