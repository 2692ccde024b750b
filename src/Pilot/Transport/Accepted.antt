-- ===== src/Pilot/Transport/Accepted.antt =====
-- What `Upstream.retrieve` accepts, whatever the peer sends (recserve_pilot/transport.py).
use recserve.Prelude.{
  ℕ, zero, suc, ◌+◌, ◌≤◌, ◌≡◌, String, true, false, some, List, [], ◌∷◌, ◌++◌, any, All, length,
  length-append, get_elem?, same, same_iff, same_refl, has_key, Distinct, Distinct-append,
  All-append, subst, arith, Option-cases, inl, inr,
}
use recserve.Exec.{ok, Result-cases}
use recserve.Wire.{Arrival, number_at, exact}
use recserve.Pilot.Transport.{FloatBits, add_item, read_items, read_body, retrieve}

module _ {F : Type 0} (bits : FloatBits F) (item_ids : List String) where
  -- an entry that is in the catalog and has a finite score
  abbrev pub IsValid : String × F → Type 0
  IsValid (item, score) = (any (λ i. same i item) item_ids ≡ true) × (bits.is_finite score ≡ true)

  get_elem?-any :
      (n : ℕ) (ids : List String) {item : String}
      → get_elem? ids n ≡ some item
      → any (λ i. same i item) ids ≡ true
  get_elem?-any n [] {item} h = cc
  get_elem?-any zero (i ∷ ids) {item} h = ground (arith, same_refl i, same_iff i item)
  get_elem?-any (suc n) (i ∷ ids) {item} h = ground (arith, get_elem?-any n ids {item = item})

  -- What an accepted entry has added.
  add_item-ok :
      (n : ℕ) (score : F) (output output' : List (String × F))
      → All IsValid output
      → Distinct output
      → add_item bits item_ids (get_elem? item_ids n) score output ≡ ok output'
      → All IsValid output' × Distinct output' × (length output' ≡ length output + 1)
  unfolding add_item
  add_item-ok n score output output' v d e = elim (Option-cases (get_elem? item_ids n)) [
    | inl none_there ↦ ground arith
    | inr (item, there) ↦
        let fresh : has_key item output ≡ false = ground arith in
        let finite : bits.is_finite score ≡ true = ground arith in
        let added : output ++ (item, score) ∷ [] ≡ output' = ground arith in
        subst (λ l. All IsValid l × Distinct l × (length l ≡ length output + 1)) added
          (
            All-append IsValid output _ v ((get_elem?-any n item_ids there, finite), tt),
            Distinct-append item score output fresh d,
            length-append output ((item, score) ∷ []),
          )
  ]

  read_items-ok :
      (left offset : ℕ) (buffer : List ℕ) (output output' : List (String × F))
      → All IsValid output
      → Distinct output
      → read_items bits item_ids left offset buffer output ≡ ok output'
      → All IsValid output' × Distinct output' × (length output' ≡ length output + left)
  unfolding read_items
  read_items-ok zero offset buffer output output' v d e =
      subst (λ l. All IsValid l × Distinct l × (length l ≡ length output + 0)) (ground arith)
        (v, d, omega arith)
  read_items-ok (suc left) offset buffer output output' v d e =
      elim (Result-cases (
        add_item bits item_ids (get_elem? item_ids (number_at offset 4 buffer))
          (bits.of_bits (number_at (offset + 4) 4 buffer)) output)) [
            | inr (x, bad) ↦ ground arith
            | inl (o, first) ↦
                let (v', d', n) = add_item-ok _ _ output o v d first in
                let (v'', d'', n') =
                  read_items-ok left (offset + 8) buffer o output' v' d' (ground arith) in
                (v'', d'', omega (arith, n, n'))
          ]

  read_body-ok :
      (count size : ℕ) (body : List ℕ) (output : List (String × F))
      → read_body bits item_ids count size body ≡ ok output
      → All IsValid output × Distinct output × (length output ≤ count)
  unfolding read_body
  read_body-ok count size body output e =
      let (v, d, n) = read_items-ok (number_at 12 4 body) 16 body [] output tt tt (ground arith) in
      let bound : number_at 12 4 body ≤ count = ground arith in (v, d, omega (arith, n, bound))

  -- Whatever arrives, an accepted reply has at most `count` items, each of the catalog and with a
  -- finite score, and no item twice.
  pub retrieve-IsValid :
      (count : ℕ) (arrivals : List Arrival) (output : List (String × F))
      → retrieve bits item_ids count arrivals ≡ ok output
      → All IsValid output × Distinct output × (length output ≤ count)
  unfolding retrieve
  retrieve-IsValid count arrivals output e = elim (Result-cases (exact 8 arrivals)) [
    | inr (x, bad) ↦ ground arith
    | inl ((header, later), head) ↦ elim (Result-cases (exact (number_at 4 4 header) later)) [
      | inr (x, bad) ↦ ground arith
      | inl ((body, more), read) ↦
          read_body-ok count (number_at 4 4 header) body output (ground arith)
    ]
  ]
