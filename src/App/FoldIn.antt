-- ===== src/App/FoldIn.antt =====
-- The preference vector of an account: `fold_in` of recserve_app/model.py. The arithmetic of numpy is a
-- parameter.
pub mod Known
use recserve.Prelude.{
  ℕ, zero, suc, String, Bool, true, false, ◌||◌, not, Option, none, some, List, [], ◌∷◌, keep, ◌==◌,
  if◌then◌else◌,
}
use recserve.App.Selection.{Movie, Origin, popularity, centroid, als}
use recserve.App.Schema.{Taste, dislike, neutral, like}

-- Vectors, square matrices and the operations of the code on them: `solve` goes through the Cholesky
-- factor, `normalized` divides by the norm, and `is_usable` is whether the entries are finite and the norm is
-- at least 1e-12.
pub record Algebra (V M : Type 0) : Type 0 where
  pub zeros : V
  pub add : V → V → V
  pub times : ℕ → V → V
  pub add_matrix : M → M → M
  pub outer : ℕ → V → M
  pub solve : M → V → V
  pub is_usable : V → Bool
  pub normalized : V → V

-- the arrays of a model: the catalog's vectors, the factors, and the Gram matrix with the regularization on
-- its diagonal
pub record Factors (V M : Type 0) : Type 0 where
  pub vectors : ℕ → V
  pub raw : ℕ → V
  pub regularized_gram : M

row_from : ℕ → ℕ → List Movie → Option ℕ
row_from n item [] = none
row_from n item (m ∷ movies) = elim (row_from (suc n) item movies) [
  | some later ↦ some later
  | none ↦ if m.id == item then some n else none
]

-- `self.rows`, where the last movie of an identity counts
unfoldable pub row_of : List Movie → ℕ → Option ℕ
unfolding row_from
row_of movies item = row_from 0 item movies

abbrev pub is_like : Taste → Bool
is_like like = true
is_like _ = false

-- the rows of the items that are liked
unfoldable pub liked_rows : (ℕ → Option ℕ) → List (ℕ × Taste) → List ℕ
liked_rows rows [] = []
liked_rows rows ((item, value) ∷ preferences) =
    let rest = liked_rows rows preferences in
    elim (rows item) [ none ↦ rest | some row ↦ if is_like value then row ∷ rest else rest ]

module _ {V M : Type 0} (alg : Algebra V M) (f : Factors V M) where
  unfoldable pub sum_rows : V → List ℕ → V
  sum_rows total [] = total
  sum_rows total (row ∷ rows) = sum_rows (alg.add total (f.vectors row)) rows

  -- the loop of `als`; a confidence of 41 for a like and of 11 for a dislike
  unfoldable pub accumulate : (ℕ → Option ℕ) → List (ℕ × Taste) → M → V → M × V
  accumulate rows [] a b = (a, b)
  accumulate rows ((item, value) ∷ preferences) a b = elim (rows item) [
    | none ↦ accumulate rows preferences a b
    | some row ↦
        (let y = f.raw row in
          accumulate rows preferences
            (alg.add_matrix a (alg.outer (if is_like value then 40 else 10) y))
            (if is_like value then alg.add b (alg.times 41 y) else b))
  ]

  -- the vector before its normalization
  unfoldable pub direction : (ℕ → Option ℕ) → Origin → List (ℕ × Taste) → List ℕ → Option V
  direction rows popularity preferences liked = none
  direction rows centroid preferences liked = some (sum_rows alg.zeros liked)
  direction rows als preferences liked =
      let (a, b) = accumulate rows preferences f.regularized_gram alg.zeros in some (alg.solve a b)

  abbrev pub finish_vector : Option V → Option V
  finish_vector none = none
  finish_vector (some v) = if alg.is_usable v then some (alg.normalized v) else none

  unfoldable pub folded : (ℕ → Option ℕ) → Origin → List (ℕ × Taste) → List ℕ → Option V
  folded rows policy preferences [] = none
  folded rows policy preferences (row ∷ more) =
      finish_vector (direction rows policy preferences (row ∷ more))

  -- `fold_in`
  unfoldable pub fold_in : (ℕ → Option ℕ) → Origin → List (ℕ × Taste) → Option V
  fold_in rows policy preferences = folded rows policy preferences (liked_rows rows preferences)
