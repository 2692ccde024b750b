-- ===== src/Scripts/Regression/Fair.antt =====
-- The order of the runs and the verdict of scripts/regression_gate.py.
use recserve.Prelude.{
  ℕ, zero, suc, ◌%◌, ◌<◌, ◌≡◌, refl, Bool, true, false, not, none, some, List, [], any, count,
  length, ◌==◌, arith, Bool-cases, Option-cases, inl, inr,
}
use recserve.Scripts.Regression.{
  Statistics, Row, Measured, complete_all, is_valid_row, read_side, verdict, Side, base, candidate,
  schedule,
}

abbrev pub is_base : Side → Bool
is_base base = true
is_base candidate = false

-- Each side is run as often as there are pairs.
pub schedule-count :
    (n i : ℕ)
    → (count is_base (schedule n i) ≡ n) × (count (λ s. not (is_base s)) (schedule n i) ≡ n)
unfolding schedule
schedule-count zero i = (refl, refl)
schedule-count (suc n) i =
    let (bases, candidates) = schedule-count n (suc i) in
    elim (Bool-cases (i % 2 == 0)) [
      | inl even ↦ rw even (omega (arith, bases), omega (arith, candidates))
      | inr odd ↦ rw odd (omega (arith, bases), omega (arith, candidates))
    ]

module _ {F : Type 0} (stats : Statistics F) where
  -- rows that are complete and valid, and at least one
  abbrev pub IsSide : List (Row F) → Type 0
  IsSide rows =
      (rs : List (Measured F)) × ((0 < length rows)
        × ((complete_all stats rows ≡ some rs)
            × (any (λ r. not (is_valid_row stats r)) rs ≡ false)))

  read_side-IsSide :
      (rows : List (Row F)) (rs : List (Measured F))
      → (read_side stats rows).0 ≡ some rs
      → IsSide rows
  unfolding read_side
  read_side-IsSide rows rs e = elim (Option-cases (complete_all stats rows)) [
    | inl missing ↦ absurd (ground (arith, e, missing))
    | inr (found, all_there) ↦
        (found, (ground (arith, e), (all_there, ground (arith, e, all_there))))
  ]

  -- A side that is refused gives a reason.
  read_side-reason :
      (rows : List (Row F)) → (read_side stats rows).0 ≡ none → 0 < length (read_side stats rows).1
  unfolding read_side
  read_side-reason rows e = elim (Option-cases (complete_all stats rows)) [
    | inl missing ↦ ground (arith, e, missing)
    | inr (found, all_there) ↦ ground (arith, e, all_there)
  ]

  -- A comparison without a reason has complete and valid rows on both sides.
  pub verdict-IsSide :
      (max_ratio max_recall_drop : F) (old new : List (Row F))
      → verdict stats max_ratio max_recall_drop old new ≡ []
      → IsSide old × IsSide new
  unfolding verdict
  verdict-IsSide max_ratio max_recall_drop old new e = elim (Option-cases (read_side stats old).0) [
    | inl refused ↦ absurd (ground (arith, e, refused, read_side-reason old refused))
    | inr (rs, read) ↦ elim (Option-cases (read_side stats new).0) [
      | inl refused ↦ absurd (ground (arith, e, read, refused, read_side-reason new refused))
      | inr (cs, read') ↦ (read_side-IsSide old rs read, read_side-IsSide new cs read')
    ]
  ]
