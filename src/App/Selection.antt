-- ===== src/App/Selection.antt =====
-- Eligibility and candidate replenishment: recserve_app/selection.py.
pub mod Picks
pub mod Replenished
use recserve.Prelude.{
  ℕ, zero, suc, String, Bool, true, false, ◌&&◌, not, Option, none, some, List, [], ◌∷◌, ◌++◌, any,
  get_elem?, length, take, leb, ltb, ◌==◌, if◌then◌else◌,
}
use recserve.Exec.{Result, ok, err}

pub record Movie : Type 0 where
  pub id : ℕ
  pub title : String
  pub available : Bool

pub data Origin : Type 0 where
  popularity centroid als : Origin

-- A movie of a response, with the origin that it is labelled with.
pub record Pick : Type 0 where
  pub movie : Movie
  pub source : Origin

-- `model.movies` by row, and the identities of `model.popularity`
pub record Catalog : Type 0 where
  pub movies : List Movie
  pub popular : List ℕ

-- What the selection catches: OSError, EOFError and ValueError.
pub data Trouble : Type 0 where
  connection end_of_stream bad_value : Trouble

-- `selected` with the set `seen`
pub record Chosen : Type 0 where
  pub selected : List Pick
  pub seen : List ℕ

abbrev pub nothing : Chosen
nothing = record { selected = []; seen = [] }

-- `model.rows.get(item_id)`, as the movie of that row; the last row of an identity counts
unfoldable pub movie_of : ℕ → List Movie → Option Movie
movie_of item [] = none
movie_of item (m ∷ movies) = elim (movie_of item movies) [
  | some later ↦ some later
  | none ↦ if m.id == item then some m else none
]

abbrev pub mem : ℕ → List ℕ → Bool
mem item = any (λ i. i == item)

unfoldable pub add : Catalog → List ℕ → ℕ → Origin → Chosen → Result Trouble Chosen
add c blocked item origin s = elim (movie_of item c.movies) [
  | none ↦ err bad_value
  | some m ↦ ok (
      if not (mem item blocked) && (not (mem item s.seen) && m.available)
      then record {
        selected = s.selected ++ record { movie = m; source = origin } ∷ [];
        seen = item ∷ s.seen;
      }
      else s)
]

-- the candidates of one query, from the best; a candidate is a row of the catalog and a score
unfoldable pub add_rows :
    {F : Type 0} → Catalog → List ℕ → Origin → List (ℕ × F) → Chosen → Result Trouble Chosen
add_rows c blocked source [] s = ok s
add_rows c blocked source ((row, _) ∷ candidates) s = elim (get_elem? c.movies row) [
  | none ↦ err bad_value
  | some m ↦ elim (add c blocked m.id source s) [
    | err x ↦ err x
    | ok s' ↦ add_rows c blocked source candidates s'
  ]
]

-- `for count in (128, 256, 512)`
unfoldable pub widen :
    {F : Type 0}
    → Catalog
    → (ℕ → Result Trouble (List (ℕ × F)))
    → List ℕ
    → ℕ
    → Origin
    → List ℕ
    → Chosen
    → Result Trouble Chosen
widen c query blocked k source [] s = ok s
widen c query blocked k source (count ∷ counts) s = elim (query count) [
  | err x ↦ err x
  | ok candidates ↦ elim (add_rows c blocked source candidates nothing) [
    | err x ↦ err x
    | ok s' ↦
        let wider = widen c query blocked k source counts s' in
        if leb k (length s'.selected) then ok s' else wider
  ]
]

-- `for item in model.popularity`
unfoldable pub replenish : Catalog → List ℕ → ℕ → List ℕ → Chosen → Result Trouble Chosen
replenish c blocked k [] s = ok s
replenish c blocked k (item ∷ popular) s =
    let more : Result Trouble Chosen = (elim (add c blocked item popularity s) [
      | err x ↦ err x
      | ok s' ↦ replenish c blocked k popular s'
    ]) in
    if leb k (length s.selected) then ok s else more

pub record Selection : Type 0 where
  pub items : List Pick
  pub candidate_source : Origin
  pub degraded : Bool
  pub exhausted : Bool

-- the picks of the retrieval with their source and `degraded`; a failed query leaves none
unfoldable pub retrieved :
    {F : Type 0}
    → Catalog
    → Option (ℕ → Result Trouble (List (ℕ × F)))
    → List ℕ
    → ℕ
    → Origin
    → Chosen × Origin × Bool
retrieved c none blocked k policy = (nothing, popularity, false)
retrieved c (some query) blocked k policy =
    elim (widen c query blocked k policy (128 ∷ 256 ∷ 512 ∷ []) nothing) [
      | ok s ↦ (s, policy, false)
      | err _ ↦ (nothing, popularity, true)
    ]

-- `select_items`; `query` is the retrieval for the vector, `none` if there is no vector
unfoldable pub select_items :
    {F : Type 0}
    → Catalog
    → Option (ℕ → Result Trouble (List (ℕ × F)))
    → List ℕ
    → ℕ
    → Origin
    → Result Trouble Selection
select_items c query blocked k policy =
    let (s, source, degraded) = retrieved c query blocked k policy in
    elim (replenish c blocked k c.popular s) [
      | err x ↦ err x
      | ok s' ↦ ok (record {
        items = take k s'.selected;
        candidate_source = source;
        degraded = degraded;
        exhausted = ltb (length s'.selected) k;
      })
    ]
