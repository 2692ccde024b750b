-- ===== src/Scripts/Bundle/Verified.antt =====
-- What a verified bundle of scripts/bundle.py holds.
use recserve.Prelude.{
  ℕ, zero, suc, ◌+◌, ◌*◌, ◌<◌, ◌≡◌, refl, ◌∙◌, ap, subst, String, Bool, true, some, List, [], ◌∷◌,
  any, length, get_elem?, All, ◌==◌, same, same_iff, same_refl, arith, inl, inr,
}
use recserve.Prelude.Int.{ℤ, pos, negsuc, eq_ℤ}
use recserve.Exec.{ok, Result-cases}
use recserve.Scripts.Bundle.{
  Bundle, Directory, Header, check_files, check_shape, shape, are_numbered, distinct_ids, check_map,
  is_index, check_shapes, verify,
}

-- a file that is beside the manifest, with the digest that the manifest says
abbrev pub IsIntact : Directory → String × String → Type 0
IsIntact d (name, expected) = (d.is_member name ≡ true) × (d.sha256 name ≡ expected)

check_files-IsIntact :
    (d : Directory) (files : List (String × String))
    → check_files d files ≡ ok tt
    → All (IsIntact d) files
unfolding check_files
check_files-IsIntact d [] e = tt
check_files-IsIntact d ((name, expected) ∷ files) e =
    let inside : d.is_member name ≡ true = ground (arith, e) in
    let equal : same (d.sha256 name) expected ≡ true = ground (arith, e) in
    (
      (inside, (same_iff (d.sha256 name) expected).0 equal),
      check_files-IsIntact d files (ground (arith, e)),
    )

are_numbered-row :
    (n i : ℕ) (rows : List (ℤ × String))
    → are_numbered n rows ≡ true
    → i < length rows
    → (id : String) × (get_elem? rows i ≡ some (pos (n + i), id))
unfolding are_numbered
are_numbered-row n i [] h lt = absurd (omega (arith, lt))
are_numbered-row n zero ((pos m, id) ∷ rows) h lt =
    let this : m ≡ n + 0 = ground (arith, h) in (id, ap (λ k. some (pos k, id)) this)
are_numbered-row n zero ((negsuc m, id) ∷ rows) h lt = absurd (ground (arith, h))
are_numbered-row n (suc i) ((row, id) ∷ rows) h lt =
    let (name, found) = are_numbered-row (suc n) i rows (ground (arith, h)) (omega (arith, lt)) in
    let moved : suc n + i ≡ n + suc i = omega arith in
    (name, found ∙ ap (λ k. some (pos k, name)) moved)

numbered_from_zero :
    (i : ℕ) (rows : List (ℤ × String))
    → are_numbered 0 rows ≡ true
    → i < length rows
    → (id : String) × (get_elem? rows i ≡ some (pos i, id))
numbered_from_zero i rows h lt =
    let (id, found) = are_numbered-row 0 i rows h lt in
    let this : 0 + i ≡ i = omega arith in (id, found ∙ ap (λ k. some (pos k, id)) this)

get_elem?-id :
    (i : ℕ) (rows : List (ℤ × String)) {row : ℤ} {id : String}
    → get_elem? rows i ≡ some (row, id)
    → any (λ r. same r.1 id) rows ≡ true
get_elem?-id i [] {row} {id} h = cc
get_elem?-id zero ((r, j) ∷ rows) {row} {id} h = ground (arith, same_refl j)
get_elem?-id (suc i) ((r, j) ∷ rows) {row} {id} h =
    ground (arith, get_elem?-id i rows {row = row} {id = id} h)

-- an identity stands in one row only
distinct_ids-row :
    (i j : ℕ) (rows : List (ℤ × String)) {r s : ℤ} {id : String}
    → distinct_ids rows ≡ true
    → get_elem? rows i ≡ some (r, id)
    → get_elem? rows j ≡ some (s, id)
    → i ≡ j
unfolding distinct_ids
distinct_ids-row i j [] {r} {s} {id} h a b = cc
distinct_ids-row zero zero (x ∷ rows) {r} {s} {id} h a b = refl
distinct_ids-row zero (suc j) ((row, k) ∷ rows) {r} {s} {id} h a b =
    absurd (ground (arith, h, a, get_elem?-id j rows {row = s} {id = id} b))
distinct_ids-row (suc i) zero ((row, k) ∷ rows) {r} {s} {id} h a b =
    absurd (ground (arith, h, b, get_elem?-id i rows {row = r} {id = id} a))
distinct_ids-row (suc i) (suc j) ((row, k) ∷ rows) {r} {s} {id} h a b =
    ap suc (distinct_ids-row i j rows {r = r} {s = s} {id = id} (ground (arith, h)) a b)

-- a table that gives each of n rows an identity of its own
pub record IsBijection (rows : List (ℤ × String)) (n : ℕ) : Type 0 where
  pub length : length rows ≡ n
  pub total : (i : ℕ) → i < n → (id : String) × (get_elem? rows i ≡ some (pos i, id))
  pub injective :
      (i j : ℕ) (r s : ℤ) (id : String)
      → get_elem? rows i ≡ some (r, id)
      → get_elem? rows j ≡ some (s, id)
      → i ≡ j

check_map-IsBijection :
    (d : Directory) (name : String) (n : ℕ)
    → check_map d name n ≡ ok tt
    → IsBijection (d.rows name) n
unfolding check_map
check_map-IsBijection d name n e =
    let rows = d.rows name in
    let size : length rows ≡ n = ground (arith, e) in
    let numbered : are_numbered 0 rows ≡ true = ground (arith, e) in
    let distinct : distinct_ids rows ≡ true = ground (arith, e) in
    record {
      length = size;
      total = λ i lt. numbered_from_zero i rows numbered (omega (arith, lt, size));
      injective =
          λ i j r s id a b. distinct_ids-row i j rows {r = r} {s = s} {id = id} distinct a b;
    }

-- a file of vectors: it has a header and `count` rows of `dim` numbers of four bytes
abbrev pub IsShape : Directory → String → ℕ → ℕ → Type 0
IsShape d name count dim =
    (d.header name).count ≡ pos count
    × ((d.header name).dim ≡ pos dim × (d.size name ≡ 12 + count * dim * 4))

check_shape-IsShape :
    (is_code : Bool) (m k : ℤ) (size count dim : ℕ)
    → check_shape is_code m k size ≡ ok (count, dim)
    → (m ≡ pos count) × ((k ≡ pos dim) × (size ≡ 12 + count * dim * 4))
unfolding check_shape
check_shape-IsShape is_code (pos m) (pos k) size count dim e =
    let enough : size ≡ 12 + m * k * 4 = ground (arith, e) in
    let counts : m ≡ count = ground (arith, e) in
    let dims : k ≡ dim = ground (arith, e) in
    (ap pos counts, (ap pos dims, enough ∙ rw (counts, dims) refl))
check_shape-IsShape is_code (pos m) (negsuc k) size count dim e = cc
check_shape-IsShape is_code (negsuc m) k size count dim e = cc

shape-IsShape :
    (d : Directory) (name : String) (magic count dim : ℕ)
    → shape d name magic ≡ ok (count, dim)
    → IsShape d name count dim
unfolding shape
shape-IsShape d name magic count dim e =
    check_shape-IsShape ((d.header name).code == magic) (d.header name).count (d.header name).dim
      (d.size name) count dim (ground (arith, e))

-- What `verify` has checked: all files are as the manifest says, the catalog and the queries have one dimension and
-- the lengths of their headers, the header of the index has the numbers of the catalog, and the two identity
-- maps are one to one.
pub record IsVerified (d : Directory) (b : Bundle) (users items : ℕ) : Type 0 where
  pub files : All (IsIntact d) b.files
  pub dim : ℕ
  pub catalog : IsShape d b.catalog items dim
  pub queries : IsShape d b.queries users dim
  pub index : ((d.header b.index).count ≡ pos items) × ((d.header b.index).dim ≡ pos dim)
  pub user_map : IsBijection (d.rows b.user_map) users
  pub item_map : IsBijection (d.rows b.item_map) items

pos_of-eq_ℤ : (z : ℤ) (n : ℕ) → eq_ℤ z (pos n) ≡ true → z ≡ pos n
pos_of-eq_ℤ (pos m) n h = let this : m ≡ n = ground (arith, h) in ap pos this
pos_of-eq_ℤ (negsuc m) n h = absurd (ground (arith, h))

is_index-shape :
    (h : Header) (items dim : ℕ)
    → is_index h items dim ≡ true
    → (h.count ≡ pos items) × (h.dim ≡ pos dim)
is_index-shape h items dim e =
    (pos_of-eq_ℤ h.count items (ground (arith, e)), pos_of-eq_ℤ h.dim dim (ground (arith, e)))

check_shapes-IsVerified :
    (d : Directory) (b : Bundle) (users items : ℕ)
    → All (IsIntact d) b.files
    → check_shapes d b ≡ ok (users, items)
    → IsVerified d b users items
unfolding check_shapes
check_shapes-IsVerified d b users items files e =
    elim (Result-cases (shape d b.catalog 0x43415431)) [
      | inr (x, bad) ↦ absurd (ground (arith, e, bad))
      | inl ((n, dim), catalog) ↦ elim (Result-cases (shape d b.queries 0x51525931)) [
        | inr (x, bad) ↦ absurd (ground (arith, e, catalog, bad))
        | inl ((m, query_dim), queries) ↦
            let is_dim : query_dim ≡ dim = ground (arith, e, catalog, queries) in
            let index_ok : is_index (d.header b.index) n dim ≡ true =
              ground (arith, e, catalog, queries) in
            let users_ok : check_map d b.user_map m ≡ ok tt = ground (arith, e, catalog, queries) in
            let items_ok : check_map d b.item_map n ≡ ok tt = ground (arith, e, catalog, queries) in
            let is_users : m ≡ users = ground (arith, e, catalog, queries) in
            let is_items : n ≡ items = ground (arith, e, catalog, queries) in
            let (counts, dims) = is_index-shape (d.header b.index) n dim index_ok in
            subst (λ u. IsVerified d b u items) is_users
              (subst (λ i. IsVerified d b m i) is_items
                (record {
                  files = files;
                  dim = dim;
                  catalog = shape-IsShape d b.catalog 0x43415431 n dim catalog;
                  queries =
                      subst (IsShape d b.queries m) is_dim
                        (shape-IsShape d b.queries 0x51525931 m query_dim queries);
                  index = (counts, dims);
                  user_map = check_map-IsBijection d b.user_map m users_ok;
                  item_map = check_map-IsBijection d b.item_map n items_ok;
                }))
      ]
    ]

-- A bundle that `verify` accepts has the files of its manifest, with their digests. Its catalog and its queries have one
-- dimension and the lengths that their headers say, the header of its index has the number of items and the
-- dimension of the catalog, and each kind of identity has a one-to-one map. The length of the index is not checked.
pub verify-IsVerified :
    (d : Directory) (b : Bundle) (users items : ℕ)
    → verify d b ≡ ok (users, items)
    → IsVerified d b users items
unfolding verify
verify-IsVerified d b users items e = elim (Result-cases (check_files d b.files)) [
  | inr (x, bad) ↦ absurd (ground (arith, e, bad))
  | inl (u, intact) ↦
      check_shapes-IsVerified d b users items (check_files-IsIntact d b.files intact)
        (ground (arith, e, intact))
]
