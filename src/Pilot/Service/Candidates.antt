-- ===== src/Pilot/Service/Candidates.antt =====
-- The keys of the dict of candidates, of the popularity fill and of the ranking
-- (recserve_pilot/service.py).
use recserve.Prelude.{
  ℕ, suc, ◌≡◌, refl, ◌∙◌, String, Bool, false, ◌||◌, List, [], ◌∷◌, length, any, has_key,
  has_key-put, Distinct, Distinct-put, put, max, same, same_iff, arith, Bool-cases, inl, inr,
  if◌then◌else◌,
}
use recserve.Prelude.Sorting.{sort, insert, any-insert, any-sort}
use recserve.Pilot.Store.{Snapshot}
use recserve.Pilot.Model.{Floats, Model, rank, scored, eligible, ranks_before}
use recserve.Pilot.Model.Ranked.{scored-has}
use recserve.Pilot.Service.{update, fill_from}

module _ {F : Type 0} (num : Floats F) (m : Model) where
  pub Distinct-update :
      (candidates more : List (String × F))
      → Distinct candidates
      → Distinct (update num m candidates more)
  unfolding update
  Distinct-update candidates [] d = d
  Distinct-update candidates ((item, score) ∷ more) d =
      Distinct-update (put item score candidates) more (Distinct-put item score candidates d)

  -- one step of the fill
  abbrev filled_with : F → ℕ → String → List (String × F) → List (String × F)
  filled_with floor position item candidates =
      if has_key item candidates
      then candidates
      else put item
          (num.sub floor (num.div (num.of_ℕ position) (num.of_ℕ (max 1 (length m.items)))))
          candidates

  Distinct-filled_with :
      (floor : F) (position : ℕ) (item : String) (candidates : List (String × F))
      → Distinct candidates
      → Distinct (filled_with floor position item candidates)
  Distinct-filled_with floor position item candidates d =
      elim (Bool-cases (has_key item candidates)) [
        | inl old ↦ rw old d
        | inr new ↦ rw new (Distinct-put item _ candidates d)
      ]

  pub Distinct-fill_from :
      (floor : F) (position : ℕ) (popular : List String) (candidates : List (String × F))
      → Distinct candidates
      → Distinct (fill_from num m floor position popular candidates)
  unfolding fill_from
  Distinct-fill_from floor position [] candidates d = d
  Distinct-fill_from floor position (item ∷ popular) candidates d =
      Distinct-fill_from floor (suc position) popular (filled_with floor position item candidates)
        (Distinct-filled_with floor position item candidates d)

  has_key-filled_with :
      (item : String) (floor : F) (position : ℕ) (i : String) (candidates : List (String × F))
      → has_key item (filled_with floor position i candidates)
        ≡ (same i item || has_key item candidates)
  has_key-filled_with item floor position i candidates = ground (
    arith,
    same_iff i item,
    has_key-put item i
        (num.sub floor (num.div (num.of_ℕ position) (num.of_ℕ (max 1 (length m.items)))))
        candidates,
  )

  -- the fill adds the items of `popular`, and drops none
  pub fill_from-has :
      (item : String) (floor : F) (position : ℕ) (popular : List String)
      (candidates : List (String × F))
      → has_key item (fill_from num m floor position popular candidates)
        ≡ (any (λ i. same i item) popular || has_key item candidates)
  unfolding fill_from
  fill_from-has item floor position [] candidates = refl
  fill_from-has item floor position (i ∷ popular) candidates = ground (
    arith,
    fill_from-has item floor (suc position) popular (filled_with floor position i candidates),
    has_key-filled_with item floor position i candidates,
  )

  Distinct-scored :
      (seen : List String) (snap : Snapshot) (candidates : List (String × F))
      → Distinct candidates
      → Distinct (scored num candidates seen snap)
  unfolding scored
  Distinct-scored seen snap [] d = tt
  Distinct-scored seen snap ((i, s) ∷ candidates) (first, d) =
      let rest = Distinct-scored seen snap candidates d in
      elim (Bool-cases (eligible i seen snap.blocked snap.unavailable)) [
        | inl in_it ↦ rw in_it (scored-has num seen snap i candidates ∙ ground (arith, first), rest)
        | inr out ↦ rw out rest
      ]

  Distinct-insert :
      (le : String × F → String × F → Bool) (p : String × F) (ps : List (String × F))
      → has_key p.0 ps ≡ false
      → Distinct ps
      → Distinct (insert le p ps)
  unfolding insert
  Distinct-insert le p [] first d = (refl, tt)
  Distinct-insert le p (q ∷ ps) first (next, d) = elim (Bool-cases (le p q)) [
    | inl before ↦ rw before (first, (next, d))
    | inr after ↦ rw after (
      any-insert le (λ r. same r.0 q.0) p ps ∙ ground (arith, same_iff p.0 q.0, same_iff q.0 p.0),
      Distinct-insert le p ps (ground arith) d,
    )
  ]

  Distinct-sort :
      (le : String × F → String × F → Bool) (ps : List (String × F))
      → Distinct ps
      → Distinct (sort le ps)
  unfolding sort
  Distinct-sort le [] d = tt
  Distinct-sort le (p ∷ ps) (first, d) =
      Distinct-insert le p (sort le ps) (any-sort le (λ r. same r.0 p.0) ps ∙ first)
        (Distinct-sort le ps d)

  pub Distinct-rank :
      (candidates : List (String × F)) (seen : List String) (snap : Snapshot)
      → Distinct candidates
      → Distinct (rank num candidates seen snap m.items)
  unfolding rank
  Distinct-rank candidates seen snap d =
      Distinct-sort (ranks_before num m.items) _ (Distinct-scored seen snap candidates d)
