-- ===== src/App/Model.antt =====
-- The bundles that the service accepts: `Model.__init__` of recserve_app/model.py. Files, digests and the
-- numerical comparisons of arrays come as they are read.
pub mod Selecting
use recserve.Prelude.{
  ℕ, zero, suc, ◌+◌, ◌*◌, String, Bool, true, false, ◌&&◌, ◌||◌, not, Option, none, some, List, [],
  ◌∷◌, any, all, map, length, has_key, ltb, leb, ◌==◌, same, if◌then◌else◌,
}
use recserve.Prelude.Int.{ℤ, pos, negsuc, eq_ℤ}
use recserve.Exec.{Result, ok, err}
use recserve.Pilot.Payload.{codes}
use recserve.App.Selection.{Movie, Catalog, Origin, popularity, centroid, als, mem}

-- the manifest: `confidence` has the values of like and dislike, if these are its keys
pub record Manifest (F : Type 0) : Type 0 where
  pub size : ℕ
  pub schema_version : ℤ
  pub policy : String
  pub files : List (String × String)
  pub regularization : F
  pub confidence : Option (ℤ × ℤ)

-- twelve bytes at the head of a file
pub record Header : Type 0 where
  pub code : ℕ
  pub count : ℤ
  pub dim : ℤ

-- an entry of movies.json: a field of another type is `none`
pub record RawMovie : Type 0 where
  pub id : Option ℤ
  pub title : Option String
  pub available : Option Bool

-- What the members hold. `finite` is whether all numbers of the three arrays are, and `consistent` whether
-- the factors give the catalog and the Gram matrix.
pub record Stored : Type 0 where
  pub is_inside : String → Bool
  pub size : String → ℕ
  pub digest : String → String
  pub catalog : Header
  pub raw_shape : List ℕ
  pub gram_shape : List ℕ
  pub finite : Bool
  pub consistent : Bool
  pub index : Header
  pub movies : List RawMovie
  pub popularity : List ℤ

pub data Refusal : Type 0 where
  oversized bad_schema bad_roles unverified_member bad_dimensions bad_length bad_basis nonfinite
        mismatch :
      Refusal
  index_differs bad_movies duplicate_movies bad_popularity bad_fold_in : Refusal

pub record Loaded (F : Type 0) : Type 0 where
  pub catalog : Catalog
  pub policy : Origin
  pub dimension : ℕ
  pub regularization : F

abbrev pub required_files : List String
required_files =
    "catalog.bin" ∷ "factors.npy" ∷ "gram.npy" ∷ "index.bin" ∷ "movies.json" ∷ "popularity.json"
    ∷ "LICENSE.txt" ∷ []

unfoldable pub policy_of : String → Option Origin
policy_of name =
    if same name "popularity"
    then some popularity
    else if same name "centroid"
    then some centroid
    else if same name "als"
    then some als
    else none

-- `set(info['files']) == required`
unfoldable pub are_required : List (String × String) → Bool
are_required files =
    all (λ f. any (same f.0) required_files) files
    && all (λ name. has_key name files) required_files

-- the loop over the files; a member has at most 512 MiB
unfoldable pub are_verified : Stored → List (String × String) → Bool
are_verified s [] = true
are_verified s ((name, digest) ∷ files) =
    s.is_inside name
    && (leb (s.size name) 536870912 && same (s.digest name) digest)
    && are_verified s files

-- the dimensions of the catalog
unfoldable pub dimensions : Header → Option (ℕ × ℕ)
dimensions h = elim h.count [
  | negsuc n ↦ none
  | pos count ↦ elim h.dim [
    | negsuc n ↦ none
    | pos dim ↦
        if (h.code == 0x43415431)
          && (leb 1 count && (leb count 100000 && (leb 1 dim && leb dim 256)))
        then some (count, dim)
        else none
  ]
]

unfoldable pub same_shape : List ℕ → List ℕ → Bool
same_shape [] [] = true
same_shape (a ∷ as') (b ∷ bs) = (a == b) && same_shape as' bs
same_shape _ _ = false

-- a movie with an identity from 1 on and a title of at most 500 characters
unfoldable pub movie_from : Option ℤ → Option String → Option Bool → Option Movie
movie_from (some (pos id)) (some title) (some available) =
    if leb 1 id && leb (length (codes title)) 500
    then some (record { id = id; title = title; available = available })
    else none
movie_from _ _ _ = none

unfoldable pub movies_from : List RawMovie → Option (List Movie)
movies_from [] = some []
movies_from (r ∷ raw) = elim (movie_from r.id r.title r.available) [
  | none ↦ none
  | some m ↦ elim (movies_from raw) [ none ↦ none | some movies ↦ some (m ∷ movies) ]
]

-- no identity stands twice
unfoldable pub distinct_movies : List Movie → Bool
distinct_movies [] = true
distinct_movies (m ∷ movies) = not (any (λ n. n.id == m.id) movies) && distinct_movies movies

unfoldable pub naturals : List ℤ → Option (List ℕ)
naturals [] = some []
naturals (negsuc n ∷ numbers) = none
naturals (pos n ∷ numbers) = elim (naturals numbers) [ none ↦ none | some ns ↦ some (n ∷ ns) ]

-- `set(self.popularity) == set(self.rows)`
unfoldable pub same_identities : List ℕ → List Movie → Bool
same_identities popular movies =
    all (λ i. any (λ m. m.id == i) movies) popular && all (λ m. mem m.id popular) movies

-- a permutation of the identities
unfoldable pub popular_from : ℕ → List ℤ → List Movie → Option (List ℕ)
popular_from count raw movies = elim (naturals raw) [
  | none ↦ none
  | some popular ↦
      if (length popular == count) && same_identities popular movies then some popular else none
]

infixl 5 ◌>>=◌ ◌>>◌
abbrev pub ◌>>=◌ : {A B : Type 0} → Result Refusal A → (A → Result Refusal B) → Result Refusal B
ok a >>= f = f a
err e >>= f = err e

abbrev pub ◌>>◌ : {B : Type 0} → Result Refusal (Unit {0}) → Result Refusal B → Result Refusal B
m >> k = m >>= λ _. k

abbrev pub require : Bool → Refusal → Result Refusal (Unit {0})
require b e = if b then ok tt else err e

abbrev pub or_refuse : {A : Type 0} → Option A → Refusal → Result Refusal A
or_refuse none e = err e
or_refuse (some a) e = ok a

-- the checks of the arrays and the index
unfoldable pub check_arrays : Stored → Result Refusal (ℕ × ℕ)
check_arrays s = do
  (count, dim) ← or_refuse (dimensions s.catalog) bad_dimensions
  require (s.size "catalog.bin" == 12 + 4 * count * dim) bad_length
  require (same_shape s.raw_shape (count ∷ dim ∷ []) && same_shape s.gram_shape (dim ∷ dim ∷ []))
      bad_basis
  require s.finite nonfinite
  require s.consistent mismatch
  require
      ((s.index.code == 0x48535732)
        && (eq_ℤ s.index.count (pos count) && eq_ℤ s.index.dim (pos dim)))
      index_differs
  ok (count, dim)

-- the catalog of movies and their order by popularity
unfoldable pub check_catalog : ℕ → Stored → Result Refusal Catalog
check_catalog count s = do
  require (length s.movies == count) bad_movies
  movies ← or_refuse (movies_from s.movies) bad_movies
  require (distinct_movies movies) duplicate_movies
  popular ← or_refuse (popular_from count s.popularity movies) bad_popularity
  ok (record { movies = movies; popular = popular })

abbrev pub is_confidence : Option (ℤ × ℤ) → Bool
is_confidence none = false
is_confidence (some (likes, dislikes)) = eq_ℤ likes (pos 41) && eq_ℤ dislikes (pos 11)

-- `Model.__init__`; `in_range` is the test `0 < regularization <= 100`
unfoldable pub load : {F : Type 0} → (F → Bool) → Manifest F → Stored → Result Refusal (Loaded F)
load in_range info s = do
  require (leb info.size 65536) oversized
  require (eq_ℤ info.schema_version (pos 2)) bad_schema
  policy ← or_refuse (policy_of info.policy) bad_schema
  require (are_required info.files) bad_roles
  require (are_verified s info.files) unverified_member
  (count, dim) ← check_arrays s
  catalog ← check_catalog count s
  require (in_range info.regularization && is_confidence info.confidence) bad_fold_in
  ok (record {
    catalog = catalog;
    policy = policy;
    dimension = dim;
    regularization = info.regularization;
  })
