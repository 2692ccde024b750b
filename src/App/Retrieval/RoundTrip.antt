-- ===== src/App/Retrieval/RoundTrip.antt =====
-- What the RSV2 client of recserve_app/retrieval.py makes of a reply.
use mathlib.Core.List.{append_assoc, append-nil}
use recserve.Prelude.{
  ℕ, ◌+◌, ◌*◌, ◌^◌, ◌≤◌, ◌<◌, ◌≡◌, refl, sym, ◌∙◌, ap, true, false, not, List, [], ◌∷◌, ◌++◌, any,
  All, length, length-append, take, drop, take-prefix, drop-prefix, arith,
}
use recserve.Exec.{ok}
use recserve.Wire.{Arrival, pack, number_at}
use recserve.Wire.Numbers.{length-pack, number_at-pack}
use recserve.Wire.Receiving.{stream, exact-prefix}
use recserve.App.Retrieval.{
  FloatCodec, magic, same_bytes, distinct_rows, items_from, read_answer, is_size, read_reply,
  receive_reply,
}

same_bytes_refl : (bs : List ℕ) → same_bytes bs bs ≡ true
unfolding same_bytes
same_bytes_refl [] = refl
same_bytes_refl (b ∷ bs) = ground (arith, same_bytes_refl bs)

module _ {F : Type 0} (codec : FloatCodec F) (digest : List ℕ) where
  -- an item that the engine can send: its row and its score fit, and the score is finite and is read
  -- back from its bits
  abbrev pub IsSendable : ℕ × F → Type 0
  IsSendable (row, score) =
      (row < 256 ^ 4)
      × ((codec.to_bits score < 256 ^ 4)
          × ((codec.of_bits (codec.to_bits score) ≡ score) × (codec.is_finite score ≡ true)))

  -- the reply of an engine to the request `rid`, as the protocol lays it out
  abbrev pub item_bytes : List (ℕ × F) → List ℕ
  item_bytes [] = []
  item_bytes ((row, score) ∷ items) =
      pack 4 row ++ (pack 4 (codec.to_bits score) ++ item_bytes items)

  abbrev pub answer_bytes : ℕ → List (ℕ × F) → List ℕ
  answer_bytes rid items =
      pack 8 rid ++ (pack 4 0 ++ (pack 4 (length items) ++ (digest ++ item_bytes items)))

  abbrev pub reply_bytes : ℕ → List (ℕ × F) → List ℕ
  reply_bytes rid items = (pack 4 magic ++ pack 4 (48 + 8 * length items)) ++ answer_bytes rid items

  items_from-item_bytes :
      (items : List (ℕ × F)) (whole front : List ℕ) (offset : ℕ)
      → whole ≡ front ++ item_bytes items
      → length front ≡ offset
      → All IsSendable items
      → items_from codec digest (length items) offset whole ≡ items
  unfolding items_from
  items_from-item_bytes [] whole front offset e here h = refl
  items_from-item_bytes ((row, score) ∷ items) whole front offset e here
        ((small, (bits, (back, finite))), h) =
      let score_bytes = pack 4 (codec.to_bits score) in
      let mid = front ++ pack 4 row in
      let mid_length : length mid ≡ offset + 4 =
        omega (arith, length-append front (pack 4 row), length-pack 4 row, here) in
      let next_length : length (mid ++ score_bytes) ≡ offset + 8 =
        omega
          (arith, length-append mid score_bytes, length-pack 4 (codec.to_bits score), mid_length) in
      let at_mid : whole ≡ mid ++ (score_bytes ++ item_bytes items) =
        e ∙ sym (append_assoc front (pack 4 row) (score_bytes ++ item_bytes items)) in
      let at_next : whole ≡ (mid ++ score_bytes) ++ item_bytes items =
        at_mid ∙ sym (append_assoc mid score_bytes (item_bytes items)) in
      let first : number_at offset 4 whole ≡ row =
        ap (number_at offset 4) e
        ∙ number_at-pack front (score_bytes ++ item_bytes items) offset 4 row here small in
      let second : number_at (offset + 4) 4 whole ≡ codec.to_bits score =
        ap (number_at (offset + 4) 4) at_mid
        ∙ number_at-pack mid (item_bytes items) (offset + 4) 4 (codec.to_bits score) mid_length
            bits in
      let rest : items_from codec digest (length items) (offset + 8) whole ≡ items =
        items_from-item_bytes items whole (mid ++ score_bytes) (offset + 8) at_next next_length h in
      rw (first, second, back, rest) refl

  all_finite :
      (items : List (ℕ × F))
      → All IsSendable items
      → any (λ r. not (codec.is_finite r.1)) items ≡ false
  all_finite [] h = refl
  all_finite ((row, score) ∷ items) ((small, (bits, (back, finite))), h) =
      rw (finite, all_finite items h) refl

  read_answer-answer_bytes :
      (rid count : ℕ) (items : List (ℕ × F))
      → rid < 256 ^ 8
      → length digest ≡ 32
      → length items ≤ count
      → length items ≤ 512
      → distinct_rows items ≡ true
      → All IsSendable items
      → read_answer codec digest rid count (48 + 8 * length items) (answer_bytes rid items)
        ≡ ok items
  unfolding read_answer
  read_answer-answer_bytes rid count items id_fits wide few small distinct h =
      let whole = answer_bytes rid items in
      let id_bytes = pack 8 rid in
      let to_status = id_bytes ++ pack 4 0 in
      let to_count = to_status ++ pack 4 (length items) in
      let after = digest ++ item_bytes items in
      let at_status : whole ≡ to_status ++ (pack 4 (length items) ++ after) =
        sym (append_assoc id_bytes (pack 4 0) (pack 4 (length items) ++ after)) in
      let at_count : whole ≡ to_count ++ after =
        at_status ∙ sym (append_assoc to_status (pack 4 (length items)) after) in
      let at_items : whole ≡ (to_count ++ digest) ++ item_bytes items =
        at_count ∙ sym (append_assoc to_count digest (item_bytes items)) in
      let status_length : length to_status ≡ 12 =
        omega (arith, length-append id_bytes (pack 4 0), length-pack 8 rid, length-pack 4 0) in
      let count_length : length to_count ≡ 16 = omega (
        arith,
        length-append to_status (pack 4 (length items)),
        length-pack 4 (length items),
        status_length,
      ) in
      let items_length : length (to_count ++ digest) ≡ 48 =
        omega (arith, length-append to_count digest, count_length, wide) in
      let id_read : number_at 0 8 whole ≡ rid =
        number_at-pack [] (pack 4 0 ++ (pack 4 (length items) ++ after)) 0 8 rid refl id_fits in
      let status_read : number_at 8 4 whole ≡ 0 =
        number_at-pack id_bytes (pack 4 (length items) ++ after) 8 4 0 (length-pack 8 rid)
          (omega arith) in
      let count_read : number_at 12 4 whole ≡ length items =
        ap (number_at 12 4) at_status
        ∙ number_at-pack to_status after 12 4 (length items) status_length (omega (arith, small)) in
      let model_read : take 32 (drop 16 whole) ≡ digest =
        ap (λ k. take 32 (drop k whole)) (sym count_length)
        ∙ (ap (λ l. take 32 (drop (length to_count) l)) at_count
            ∙ (ap (take 32) (drop-prefix to_count after)
                ∙ (ap (λ k. take k after) (sym wide) ∙ take-prefix digest (item_bytes items)))) in
      let items_read : items_from codec digest (length items) 48 whole ≡ items =
        items_from-item_bytes items whole (to_count ++ digest) 48 at_items items_length h in
      rw
        (
          id_read,
          status_read,
          count_read,
          model_read,
          items_read,
          distinct,
          all_finite items h,
          same_bytes_refl digest,
        )
        (ground (arith, few))

  item_bytes-length : (items : List (ℕ × F)) → length (item_bytes items) ≡ 8 * length items
  item_bytes-length [] = refl
  item_bytes-length ((row, score) ∷ items) = omega (
    arith,
    length-append (pack 4 row) (pack 4 (codec.to_bits score) ++ item_bytes items),
    length-append (pack 4 (codec.to_bits score)) (item_bytes items),
    length-pack 4 row,
    length-pack 4 (codec.to_bits score),
    item_bytes-length items,
  )

  answer_bytes-length :
      (rid : ℕ) (items : List (ℕ × F))
      → length digest ≡ 32
      → length (answer_bytes rid items) ≡ 48 + 8 * length items
  answer_bytes-length rid items wide =
      let after = digest ++ item_bytes items in
      omega (
        arith,
        length-append (pack 8 rid) (pack 4 0 ++ (pack 4 (length items) ++ after)),
        length-append (pack 4 0) (pack 4 (length items) ++ after),
        length-append (pack 4 (length items)) after,
        length-append digest (item_bytes items),
        length-pack 8 rid,
        length-pack 4 0,
        length-pack 4 (length items),
        item_bytes-length items,
        wide,
      )

  -- The reply of an engine to a request, however it is cut into packets and whatever follows, is read as the
  -- items that were sent, in their order, if they are at most 512, at most as many as asked for, with
  -- distinct rows and finite scores that 32 bits hold.
  pub receive_reply-reply_bytes :
      (rid count : ℕ) (items : List (ℕ × F)) (arrivals : List Arrival) (more : List ℕ)
      → rid < 256 ^ 8
      → length digest ≡ 32
      → length items ≤ count
      → length items ≤ 512
      → distinct_rows items ≡ true
      → All IsSendable items
      → stream arrivals ≡ reply_bytes rid items ++ more
      → receive_reply codec digest rid count arrivals ≡ ok items
  unfolding receive_reply read_reply
  receive_reply-reply_bytes rid count items arrivals more id_fits wide few small distinct h sent =
      let size = 48 + 8 * length items in
      let header = pack 4 magic ++ pack 4 size in
      let header_length : length header ≡ 8 = omega (
        arith,
        length-append (pack 4 magic) (pack 4 size),
        length-pack 4 magic,
        length-pack 4 size,
      ) in
      let (later, head_read, head_rest) =
        exact-prefix 8 arrivals header (answer_bytes rid items ++ more)
          (sent ∙ append_assoc header (answer_bytes rid items) more) header_length in
      let (last, body_read, body_rest) =
        exact-prefix size later (answer_bytes rid items) more head_rest
          (answer_bytes-length rid items wide) in
      let magic_read : number_at 0 4 header ≡ magic =
        number_at-pack [] (pack 4 size) 0 4 magic refl (omega arith) in
      let size_read : number_at 4 4 header ≡ size =
        ap (λ l. number_at 4 4 (pack 4 magic ++ l)) (sym (append-nil (pack 4 size)))
        ∙ number_at-pack (pack 4 magic) [] 4 4 size (length-pack 4 magic) (omega (arith, small)) in
      let body = read_answer-answer_bytes rid count items id_fits wide few small distinct h in
      let size_ok : is_size codec digest size ≡ true = ground (arith, small) in
      rw (head_read, receive_reply, read_reply, magic_read, size_read, body_read)
        (rw (size_read, size_ok) body)
