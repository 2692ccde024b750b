-- ===== src/App/Retrieval/Accepted.antt =====
-- What the RSV2 client of recserve_app/retrieval.py accepts.
use recserve.Prelude.{
  ℕ, zero, suc, ◌+◌, ◌≤◌, ◌≡◌, refl, subst, true, false, not, List, any, length, arith, inl, inr,
}
use recserve.Exec.{ok, Result-cases}
use recserve.Wire.{Arrival, disconnected, number_at, exact}
use recserve.App.Retrieval.{
  FloatCodec, Session, connect, distinct_rows, items_from, read_answer, read_reply, receive_reply,
  query_once,
}

module _ {F : Type 0} (codec : FloatCodec F) (digest : List ℕ) where
  -- at most `count` items, no row twice, and each score finite
  abbrev pub IsAccepted : ℕ → List (ℕ × F) → Type 0
  IsAccepted count items =
      (length items ≤ count)
      × ((distinct_rows items ≡ true) × (any (λ r. not (codec.is_finite r.1)) items ≡ false))

  length-items_from :
      (left offset : ℕ) (data_bytes : List ℕ)
      → length (items_from codec digest left offset data_bytes) ≡ left
  unfolding items_from
  length-items_from zero offset data_bytes = refl
  length-items_from (suc left) offset data_bytes =
      omega (arith, length-items_from left (offset + 8) data_bytes)

  read_answer-ok :
      (rid count size : ℕ) (data_bytes : List ℕ) (items : List (ℕ × F))
      → read_answer codec digest rid count size data_bytes ≡ ok items
      → IsAccepted count items
  unfolding read_answer
  read_answer-ok rid count size data_bytes items e =
      let n = number_at 12 4 data_bytes in
      let read = items_from codec digest n 48 data_bytes in
      let few : n ≤ count = ground (arith, e) in
      let distinct : distinct_rows read ≡ true = ground (arith, e) in
      let finite : any (λ r. not (codec.is_finite r.1)) read ≡ false = ground (arith, e) in
      let these : read ≡ items = ground (arith, e) in
      subst (IsAccepted count) these
        (omega (arith, few, length-items_from n 48 data_bytes), (distinct, finite))

  receive_reply-ok :
      (rid count : ℕ) (arrivals : List Arrival) (items : List (ℕ × F))
      → receive_reply codec digest rid count arrivals ≡ ok items
      → IsAccepted count items
  unfolding receive_reply read_reply
  receive_reply-ok rid count arrivals items e = elim (Result-cases (exact 8 arrivals)) [
    | inr (x, bad) ↦ absurd (ground (arith, e, bad))
    | inl ((header, later), head) ↦ elim (Result-cases (exact (number_at 4 4 header) later)) [
      | inr (x, bad) ↦ absurd (ground (arith, e, head, bad))
      | inl ((data_bytes, more), read) ↦
          read_answer-ok rid count (number_at 4 4 header) data_bytes items
            (ground (arith, e, head, read))
    ]
  ]

  -- Whatever a session meets and whatever arrives, a query that succeeds has at most as many items as asked for,
  -- no row twice, and only finite scores.
  pub query_once-IsAccepted :
      (s : Session) (rid count : ℕ) (items : List (ℕ × F))
      → query_once codec digest s rid count ≡ ok items
      → IsAccepted count items
  unfolding query_once
  query_once-IsAccepted s rid count items e =
      elim (Result-cases (connect disconnected s.attempts)) [
        | inr (x, bad) ↦ absurd (ground (arith, e, bad))
        | inl (arrivals, opened) ↦
            receive_reply-ok rid count arrivals items (ground (arith, e, opened))
      ]
