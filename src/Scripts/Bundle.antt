-- ===== src/Scripts/Bundle.antt =====
-- The bundle of a catalog, its queries, its index and its identity maps: `member` and `verify` of
-- scripts/bundle.py. The files are a parameter.
pub mod Verified
pub mod Serving
use recserve.Prelude.{
  ℕ, zero, suc, ◌+◌, ◌*◌, String, Bool, true, false, ◌&&◌, ◌||◌, not, Option, none, some, List, [],
  ◌∷◌, any, all, map, length, has_key, ltb, leb, ◌==◌, same, if◌then◌else◌,
}
use recserve.Prelude.Int.{ℤ, pos, eq_ℤ}
use recserve.Exec.{Result, ok, err}

-- a manifest, decoded: `files` is a dict of names and digests
pub record Bundle : Type 0 where
  pub schema_version : ℤ
  pub model_version : String
  pub files : List (String × String)
  pub catalog : String
  pub queries : String
  pub index : String
  pub user_map : String
  pub item_map : String

-- the first twelve bytes of a file as `struct` reads them
pub record Header : Type 0 where
  pub code : ℕ
  pub count : ℤ
  pub dim : ℤ

-- What the files beside the manifest hold: whether a name is a member of the directory, and of a member its
-- digest, its header, its size, and its rows as a table of row numbers and identities.
pub record Directory : Type 0 where
  pub is_member : String → Bool
  pub sha256 : String → String
  pub header : String → Header
  pub size : String → ℕ
  pub rows : String → List (ℤ × String)

-- why a bundle is refused
pub data Defect : Type 0 where
  bad_schema bad_count not_beside bad_shape dimensions_differ index_differs : Defect
  hash_mismatch unverified_role bad_identities : String → Defect

-- the loop over the files
unfoldable pub check_files : Directory → List (String × String) → Result Defect (Unit {0})
check_files d [] = ok tt
check_files d ((name, expected) ∷ files) =
    let rest = check_files d files in
    if not (d.is_member name)
    then err not_beside
    else if not (same (d.sha256 name) expected)
    then err (hash_mismatch name)
    else rest

-- the loop over the roles
unfoldable pub check_roles : List (String × String) → List String → Result Defect (Unit {0})
check_roles files [] = ok tt
check_roles files (name ∷ names) =
    let rest = check_roles files names in
    if has_key name files then rest else err (unverified_role name)

-- the tests of a shape: `count <= 0 or not 1 <= dim <= 4096 or size != 12 + count*dim*4`
unfoldable pub check_shape : Bool → ℤ → ℤ → ℕ → Result Defect (ℕ × ℕ)
check_shape is_code (pos count) (pos dim) size =
    if is_code && (leb 1 count && (leb 1 dim && (leb dim 4096 && (size == 12 + count * dim * 4))))
    then ok (count, dim)
    else err bad_shape
check_shape is_code _ _ size = err bad_shape

-- `shape`
unfoldable pub shape : Directory → String → ℕ → Result Defect (ℕ × ℕ)
shape d name magic =
    if not (d.is_member name)
    then err not_beside
    else check_shape ((d.header name).code == magic) (d.header name).count (d.header name).dim
        (d.size name)

-- `[int(r[row_key]) for r in rows] == list(range(expected))`, from the row number `n`
unfoldable pub are_numbered : ℕ → List (ℤ × String) → Bool
are_numbered n [] = true
are_numbered n ((row, id) ∷ rows) = eq_ℤ row (pos n) && are_numbered (suc n) rows

-- no identity stands twice
unfoldable pub distinct_ids : List (ℤ × String) → Bool
distinct_ids [] = true
distinct_ids ((row, id) ∷ rows) = not (any (λ r. same r.1 id) rows) && distinct_ids rows

-- the tests of an identity map
unfoldable pub check_map : Directory → String → ℕ → Result Defect (Unit {0})
check_map d name expected =
    let rows = d.rows name in
    if not (d.is_member name)
    then err not_beside
    else if (length rows == expected) && (are_numbered 0 rows && distinct_ids rows)
    then ok tt
    else err (bad_identities name)

abbrev pub roles_of : Bundle → List String
roles_of b = b.catalog ∷ b.queries ∷ b.index ∷ b.user_map ∷ b.item_map ∷ []

infixl 5 ◌>>=◌ ◌>>◌
abbrev pub ◌>>=◌ : {A B : Type 0} → Result Defect A → (A → Result Defect B) → Result Defect B
ok a >>= f = f a
err e >>= f = err e

abbrev pub ◌>>◌ : {B : Type 0} → Result Defect (Unit {0}) → Result Defect B → Result Defect B
m >> k = m >>= λ _. k

abbrev pub require : Bool → Defect → Result Defect (Unit {0})
require b e = if b then ok tt else err e

-- the shape of the index is that of the catalog
abbrev pub is_index : Header → ℕ → ℕ → Bool
is_index h items dim = (h.code == 0x48535732) && (eq_ℤ h.count (pos items) && eq_ℤ h.dim (pos dim))

-- the checks from the shapes on; the result has the numbers of users and items
unfoldable pub check_shapes : Directory → Bundle → Result Defect (ℕ × ℕ)
check_shapes d b = do
  (items, dim) ← shape d b.catalog 0x43415431
  (users, query_dim) ← shape d b.queries 0x51525931
  require (dim == query_dim) dimensions_differ
  require (d.is_member b.index) not_beside
  require (is_index (d.header b.index) items dim) index_differs
  check_map d b.user_map users
  check_map d b.item_map items
  ok (users, items)

-- `verify`
unfoldable pub verify : Directory → Bundle → Result Defect (ℕ × ℕ)
verify d b = do
  require (eq_ℤ b.schema_version (pos 1) && not (same b.model_version "")) bad_schema
  require (leb 1 (length b.files) && leb (length b.files) 32) bad_count
  check_files d b.files
  check_roles b.files (roles_of b)
  check_shapes d b
