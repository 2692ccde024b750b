-- ===== src/Pilot/Model/Ranked.antt =====
-- What `rank` of recserve_pilot/model.py returns.
use recserve.Prelude.{
  ◌≡◌, ◌∙◌, String, true, false, ◌&&◌, List, [], ◌∷◌, All, Bool-cases, inl, inr, same, same_iff,
  arith, has_key,
}
use recserve.Prelude.Sorting.{IsSorted, sort-IsSorted, All-sort, any-sort}
use recserve.Pilot.Store.{Snapshot}
use recserve.Pilot.Model.{Floats, rank, scored, eligible, ranks_before}

module _ {F : Type 0} (num : Floats F) (seen : List String) (snapshot : Snapshot) where
  pub scored-has :
      (item : String) (candidates : List (String × F))
      → has_key item (scored num candidates seen snapshot)
        ≡ (has_key item candidates && eligible item seen snapshot.blocked snapshot.unavailable)
  unfolding scored
  scored-has item [] = ground arith
  scored-has item ((i, s) ∷ candidates) =
      ground (arith, same_iff i item, scored-has item candidates)

  -- An item is ranked exactly when it is a candidate and is eligible.
  pub rank-has :
      (item : String) (candidates : List (String × F)) (items : List String)
      → has_key item (rank num candidates seen snapshot items)
        ≡ (has_key item candidates && eligible item seen snapshot.blocked snapshot.unavailable)
  unfolding rank
  rank-has item candidates items =
      any-sort (ranks_before num items) (λ p. same p.0 item) (scored num candidates seen snapshot)
      ∙ scored-has item candidates

  scored-eligible :
      (candidates : List (String × F))
      → All
          (λ p. eligible p.0 seen snapshot.blocked snapshot.unavailable ≡ true)
          (scored num candidates seen snapshot)
  unfolding scored
  scored-eligible [] = tt
  scored-eligible ((i, s) ∷ candidates) =
      elim (Bool-cases (eligible i seen snapshot.blocked snapshot.unavailable)) [
        | inl yes_it ↦ rw yes_it (yes_it, scored-eligible candidates)
        | inr no_it ↦ rw no_it (scored-eligible candidates)
      ]

  pub rank-eligible :
      (candidates : List (String × F)) (items : List String)
      → All
          (λ p. eligible p.0 seen snapshot.blocked snapshot.unavailable ≡ true)
          (rank num candidates seen snapshot items)
  unfolding rank
  rank-eligible candidates items =
      All-sort (ranks_before num items) _ _ (scored-eligible candidates)

  ranks_before_total :
      (items : List String)
      → ((a b : F) → num.less a b ≡ true → num.less b a ≡ false)
      → (a b : String × F) → ranks_before num items a b ≡ false
      → ranks_before num items b a ≡ true
  unfolding ranks_before
  ranks_before_total items asym a b e = ground (arith, asym a.1 b.1, asym b.1 a.1)

  -- The order is by falling score, then by the row in the catalog, if `<` on the scores never
  -- holds both ways, as on floats.
  pub rank-IsSorted :
      (candidates : List (String × F)) (items : List String)
      → ((a b : F) → num.less a b ≡ true → num.less b a ≡ false)
      → IsSorted (ranks_before num items) (rank num candidates seen snapshot items)
  unfolding rank
  rank-IsSorted candidates items asym =
      sort-IsSorted (ranks_before num items) (ranks_before_total items asym)
        (scored num candidates seen snapshot)
