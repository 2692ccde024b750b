-- ===== src/Tests/Models.antt =====
-- The theorems about the pilot's model at a concrete bundle, and about the cache of vectors.
use mathlib.Core.List.{Perm}
use recserve.Prelude.{length, ◌≤◌, some, ℕ, ◌≡◌, refl, String, [], ◌∷◌, any, arith, same}
use recserve.Prelude.Int.{pos}
use recserve.Prelude.Sorting.{sort, IsSorted}
use recserve.Exec.{ok}
use recserve.Pilot.Model.{user_of, item_at, item_row, has_seen, popular_before, build_model}
use recserve.Pilot.Model.Popularity.{NoRepeat, is_trained, viewed_before, build_model-popular}
use recserve.App.Cache.{Key, Entries, cached_vector, vector}
use recserve.App.Cache.Bounded.{IsCoherent, vector-IsCoherent}
use recserve.Tests.{films}

-- "u" watched "b" twice, which counts once
built :
    build_model "f" "v" (("u", 0) ∷ []) ("a" ∷ "b" ∷ []) ((0, pos 1) ∷ (0, pos 1) ∷ []) ≡ ok films
unfolding same build_model user_of item_at item_row has_seen popular_before sort
built = refl

build_model-popular_example :
    ((user item : String)
      → has_seen user item films.seen
        ≡ any
            (is_trained (("u", 0) ∷ []) ("a" ∷ "b" ∷ []) user item)
            ((0, pos 1) ∷ (0, pos 1) ∷ []))
    × NoRepeat films.seen
    × Perm films.popular ("a" ∷ "b" ∷ [])
    × IsSorted (viewed_before ("a" ∷ "b" ∷ []) films.seen) films.popular
build_model-popular_example =
    build_model-popular "f" "v" (("u", 0) ∷ []) ("a" ∷ "b" ∷ []) ((0, pos 1) ∷ (0, pos 1) ∷ [])
      films built

abbrev by_revision : Key → ℕ
by_revision key = key.1

abbrev warm : Entries ℕ
warm = (("u", 2), 2) ∷ (("v", 7), 7) ∷ []

vector-IsCoherent_example :
    let (v, cache') = vector (λ c. c) 3 ("u", 3) warm in
    (v ≡ 3)
    × IsCoherent by_revision cache'
    × (length cache' ≤ 512)
    × (cached_vector ("u", 3) cache' ≡ some v)
vector-IsCoherent_example =
    vector-IsCoherent by_revision (λ c. c) 3 ("u", 3) warm (refl, (refl, tt)) (refl, (refl, tt))
      (omega arith) refl
