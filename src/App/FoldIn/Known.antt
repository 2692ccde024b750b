-- ===== src/App/FoldIn/Known.antt =====
-- What the preference vector of recserve_app/model.py depends on.
use recserve.Prelude.{
  ℕ, ◌≡◌, refl, ap, ◌∙◌, Bool, true, false, Option, none, some, List, [], ◌∷◌, keep, arith,
  Option-cases, inl, inr, if◌then◌else◌,
}
use recserve.App.Selection.{Origin, popularity, centroid, als}
use recserve.App.Schema.{Taste}
use recserve.App.FoldIn.{
  Algebra, Factors, is_like, liked_rows, accumulate, direction, finish_vector, folded, fold_in,
}

abbrev pub is_row : Option ℕ → Bool
is_row none = false
is_row (some row) = true

abbrev pub is_in : (ℕ → Option ℕ) → ℕ × Taste → Bool
is_in rows p = is_row (rows p.0)

liked_rows-keep :
    (rows : ℕ → Option ℕ) (preferences : List (ℕ × Taste))
    → liked_rows rows (keep (is_in rows) preferences) ≡ liked_rows rows preferences
unfolding liked_rows
liked_rows-keep rows [] = refl
liked_rows-keep rows ((item, value) ∷ preferences) = elim (Option-cases (rows item)) [
  | inl out ↦ ground (arith, out, liked_rows-keep rows preferences)
  | inr (row, inside) ↦ ground (arith, inside, liked_rows-keep rows preferences)
]

module _ {V M : Type 0} (alg : Algebra V M) (f : Factors V M) where
  accumulate-keep :
      (rows : ℕ → Option ℕ) (preferences : List (ℕ × Taste)) (a : M) (b : V)
      → accumulate alg f rows (keep (is_in rows) preferences) a b
        ≡ accumulate alg f rows preferences a b
  unfolding accumulate
  accumulate-keep rows [] a b = refl
  accumulate-keep rows ((item, value) ∷ preferences) a b = elim (Option-cases (rows item)) [
    | inl out ↦ ground (arith, out, accumulate-keep rows preferences a b)
    | inr (row, inside) ↦
        (let y = f.raw row in
          let a' = alg.add_matrix a (alg.outer (if is_like value then 40 else 10) y) in
          let b' = (if is_like value then alg.add b (alg.times 41 y) else b) in
          ground (arith, inside, accumulate-keep rows preferences a' b'))
  ]

  direction-keep :
      (rows : ℕ → Option ℕ) (policy : Origin) (preferences : List (ℕ × Taste)) (liked : List ℕ)
      → direction alg f rows policy (keep (is_in rows) preferences) liked
        ≡ direction alg f rows policy preferences liked
  unfolding direction
  direction-keep rows popularity preferences liked = refl
  direction-keep rows centroid preferences liked = refl
  direction-keep rows als preferences liked =
      ap (λ (s : M × V). some (alg.solve s.0 s.1))
        (accumulate-keep rows preferences f.regularized_gram alg.zeros)

  folded-keep :
      (rows : ℕ → Option ℕ) (policy : Origin) (preferences : List (ℕ × Taste)) (liked : List ℕ)
      → folded alg f rows policy (keep (is_in rows) preferences) liked
        ≡ folded alg f rows policy preferences liked
  unfolding folded
  folded-keep rows policy preferences [] = refl
  folded-keep rows policy preferences (row ∷ more) =
      ap (finish_vector alg f) (direction-keep rows policy preferences (row ∷ more))

  -- Preferences for items that the model does not have change nothing.
  pub fold_in-keep :
      (rows : ℕ → Option ℕ) (policy : Origin) (preferences : List (ℕ × Taste))
      → fold_in alg f rows policy (keep (is_in rows) preferences)
        ≡ fold_in alg f rows policy preferences
  unfolding fold_in
  fold_in-keep rows policy preferences =
      ap (folded alg f rows policy (keep (is_in rows) preferences))
        (liked_rows-keep rows preferences)
      ∙ folded-keep rows policy preferences (liked_rows rows preferences)
