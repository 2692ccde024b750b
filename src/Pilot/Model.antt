-- ===== src/Pilot/Model.antt =====
-- The identities and the training policy of a verified bundle, and the ranking of candidates
-- (recserve_pilot/model.py). Files, digests and CSV text are read outside: the rows come decoded.
pub mod Popularity
pub mod Ranked
use recserve.Prelude.{
  ℕ, suc, ◌+◌, String, Bool, ◌&&◌, ◌||◌, not, Option, none, some, List, [], ◌∷◌, any, count, find?,
  get_elem?, length, ltb, ◌==◌, same, if◌then◌else◌,
}
use recserve.Prelude.Int.{ℤ, pos, negsuc}
use recserve.Prelude.Sorting.{sort}
use recserve.Exec.{ok, err}
use recserve.Pilot.Payload.{Checked, invalid}
use recserve.Pilot.Tables.{Feature}
use recserve.Pilot.Store.{Snapshot}

-- The operations of Python's floats that the pilot uses.
pub record Floats (F : Type 0) : Type 0 where
  pub less : F → F → Bool
  pub add : F → F → F
  pub sub : F → F → F
  pub mul : F → F → F
  pub div : F → F → F
  pub of_ℕ : ℕ → F

-- `seen` holds the pairs (user, item), and `popularity` an entry for each increment of the Counter.
pub record History : Type 0 where
  pub seen : List (String × String)
  pub popularity : List String

pub record Model : Type 0 where
  pub fingerprint : String
  pub version : String
  pub users : List (String × ℕ)
  pub items : List String
  pub seen : List (String × String)
  pub popular : List String

-- `inverse_users[row]`, where the last user of a row counts
unfoldable pub user_of : ℕ → List (String × ℕ) → Option String
user_of row [] = none
user_of row ((user, r) ∷ users) = elim (user_of row users) [
  | some later ↦ some later
  | none ↦ if r == row then some user else none
]

-- `item_rows`, where the last row of an item counts; 0 is for an item that is not in the catalog
row_from : ℕ → String → List String → Option ℕ
row_from row item [] = none
row_from row item (i ∷ items) = elim (row_from (suc row) item items) [
  | some later ↦ some later
  | none ↦ if same i item then some row else none
]

unfoldable pub item_row : List String → String → ℕ
unfolding row_from
item_row items item = elim (row_from 0 item items) [ none ↦ 0 | some row ↦ row ]

-- `self.items[item]` under the test `0 <= item < len(self.items)`
unfoldable pub item_at : ℤ → List String → Option String
item_at (pos n) items = get_elem? items n
item_at (negsuc n) items = none

unfoldable pub has_seen : String → String → List (String × String) → Bool
has_seen user item = any (λ p. same p.0 user && same p.1 item)

-- one row of the training file: `query_row` and `item`
add_row : List (String × ℕ) → List String → ℕ × ℤ → History → Checked History
add_row users items (row, index) h = elim (user_of row users) [
  | none ↦ err (invalid "training identity outside bundle")
  | some user ↦ elim (item_at index items) [
    | none ↦ err (invalid "training identity outside bundle")
    | some item ↦ ok (
        if has_seen user item h.seen
        then h
        else record { seen = (user, item) ∷ h.seen; popularity = item ∷ h.popularity })
  ]
]

add_rows : List (String × ℕ) → List String → List (ℕ × ℤ) → History → Checked History
unfolding add_row
add_rows users items [] h = ok h
add_rows users items (r ∷ rows) h = elim (add_row users items r h) [
  | err x ↦ err x
  | ok h' ↦ add_rows users items rows h'
]

abbrev pub popularity_of : String → List String → ℕ
popularity_of item = count (λ i. same i item)

-- the key (-popularity[item], item_rows[item])
unfoldable pub popular_before : List String → List String → String → String → Bool
popular_before items popularity a b =
    let pa = popularity_of a popularity in
    let pb = popularity_of b popularity in
    ltb pb pa || (pa == pb && not (ltb (item_row items b) (item_row items a)))

-- `Model.__init__`, from the decoded tables
unfoldable pub build_model :
    String → String → List (String × ℕ) → List String → List (ℕ × ℤ) → Checked Model
unfolding add_rows
build_model fingerprint version users items train =
    elim (add_rows users items train (record { seen = []; popularity = [] })) [
      | err x ↦ err x
      | ok h ↦ ok (record {
        fingerprint = fingerprint;
        version = version;
        users = users;
        items = items;
        seen = h.seen;
        popular = sort (popular_before items h.popularity) items;
      })
    ]

unfoldable pub eligible : String → List String → List String → List String → Bool
eligible item training_seen blocked unavailable =
    not (any (λ i. same i item) training_seen)
    && not (any (λ i. same i item) blocked)
    && not (any (λ i. same i item) unavailable)

-- `snapshot['features'].get(item, (0, 0))`
abbrev pub feature_get : String → List Feature → ℕ × ℕ
feature_get item features = elim (find? (λ f. same f.item_id item) features) [
  | none ↦ (0, 0)
  | some f ↦ (f.shown, f.saved)
]

module _ {F : Type 0} (num : Floats F) where
  open num use {less, add, sub, mul, div, of_ℕ}

  -- score + 0.05 * saved / (shown + 2), where 0.05 is the float 5 / 100
  unfoldable pub adjusted : F → ℕ × ℕ → F
  adjusted score (shown, saved) =
      add score (div (mul (div (of_ℕ 5) (of_ℕ 100)) (of_ℕ saved)) (of_ℕ (shown + 2)))

  unfoldable pub scored : List (String × F) → List String → Snapshot → List (String × F)
  unfolding adjusted
  scored [] seen snapshot = []
  scored ((item, score) ∷ candidates) seen snapshot =
      let rest = scored candidates seen snapshot in
      if eligible item seen snapshot.blocked snapshot.unavailable
      then (item, adjusted score (feature_get item snapshot.features)) ∷ rest
      else rest

  -- `sorted` by the key (-score, item_rows[item]): not (b < a)
  unfoldable pub ranks_before : List String → String × F → String × F → Bool
  ranks_before items a b =
      not (less a.1 b.1 || (not (less b.1 a.1) && ltb (item_row items b.0) (item_row items a.0)))

  unfoldable pub rank : List (String × F) → List String → Snapshot → List String → List (String × F)
  rank candidates seen snapshot items = sort (ranks_before items) (scored candidates seen snapshot)
