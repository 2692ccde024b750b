-- ===== src/App/Reconcile/Objects.antt =====
-- The deletion ledger in an object store: `S3DeletionLedger.record` and `S3DeletionLedger.read_all` of
-- recserve_app/privacy.py. The object store, the cipher and JSON, and UUIDs are parameters.
pub mod Kept
use Prim.Native.String.{◌++◌ as join}
use text.Mathlib.Text.{starts_with}
use recserve.Prelude.{
  ℕ, zero, suc, String, Bool, true, false, ◌&&◌, ◌||◌, not, Option, none, some, List, [], ◌∷◌, ◌++◌,
  length, drop, ltb, leb, ◌==◌, if◌then◌else◌,
}
use recserve.Exec.{Result, ok, err}
use recserve.Pilot.Payload.{codes}
use recserve.App.Schema.{Failure, uncaught}

-- an entry of a page; S3 may leave out its size
pub record Entry : Type 0 where
  pub key : String
  pub size : Option ℕ

-- a decoded entry: `body.get('schema')` and `body['user_id']`, where they are there
pub record Body : Type 0 where
  pub schema : Option ℕ
  pub user_id : Option String
  pub requested_ms : Option ℕ

-- `put_object`; the pages of `list_objects_v2`, each of which may fail; the first 4097 bytes of
-- `get_object`; `encrypt` after `json.dumps` and `json.loads` after `decrypt`; `str(uuid.UUID(_))`
pub record Objects (S B : Type 0) : Type 0 where
  pub put_object : String → B → S → Result Failure S
  pub pages : S → List (Result Failure (List Entry))
  pub get_object : S → String → Result Failure B
  pub byte_count : B → ℕ
  pub encrypt : Body → B
  pub decrypt : B → Result Failure Body
  pub canonical : String → Result Failure String

infixl 5 ◌>>=◌
abbrev pub ◌>>=◌ : {A B : Type 0} → Result Failure A → (A → Result Failure B) → Result Failure B
ok a >>= f = f a
err e >>= f = err e

abbrev pub folder : String
folder = "deletions/"

abbrev pub key_of : String → String
key_of user_id = join folder user_id

same_codes : List ℕ → List ℕ → Bool
same_codes [] [] = true
same_codes (c ∷ cs) (d ∷ ds) = (c == d) && same_codes cs ds
same_codes _ _ = false

-- `key.removeprefix('deletions/')`, as code points
unfoldable pub stripped : String → List ℕ
stripped key =
    if starts_with key folder then drop (length (codes folder)) (codes key) else codes key

-- `requested_ms or now_ms()`
abbrev pub requested : Option ℕ → ℕ → ℕ
requested none now = now
requested (some zero) now = now
requested (some (suc n)) now = suc n

abbrev pub body_of : String → ℕ → Body
body_of id at = record { schema = some 1; user_id = some id; requested_ms = some at }

module _ {S B : Type 0} (o : Objects S B) where
  -- `record`
  unfoldable pub record_deletion : String → Option ℕ → ℕ → S → Result Failure S
  record_deletion user_id requested_ms now s = o.canonical user_id >>= λ id.
      o.put_object (key_of id) (o.encrypt (body_of id (requested requested_ms now))) s

  -- `entry.get('Size', 0)`
  abbrev pub size_of : Entry → ℕ
  size_of e = elim e.size [ none ↦ 0 | some n ↦ n ]

  is_schema : Option ℕ → Bool
  is_schema none = false
  is_schema (some n) = n == 1

  -- the tests of a decoded entry; the result is `body['user_id']`
  unfoldable pub check_body : Entry → Body → Result Failure String
  unfolding same_codes is_schema
  check_body e body =
      if is_schema body.schema
      then elim body.user_id [
        | none ↦ err uncaught
        | some user_id ↦ o.canonical user_id >>= λ id.
            if same_codes (codes id) (stripped e.key) then ok user_id else err uncaught
      ]
      else err uncaught

  -- the body of the inner loop, after `count` entries
  unfoldable pub read_entry : S → ℕ → Entry → Result Failure String
  read_entry s count e =
      if leb 10000 count || ltb 4096 (size_of e)
      then err uncaught
      else o.get_object s e.key >>= λ encrypted.
          if ltb 4096 (o.byte_count encrypted)
          then err uncaught
          else o.decrypt encrypted >>= λ body. check_body e body

  -- the inner loop
  unfoldable pub read_page : S → List Entry → List String → Result Failure (List String)
  read_page s [] result = ok result
  read_page s (e ∷ entries) result =
      read_entry s (length result) e >>= λ user_id. read_page s entries (result ++ user_id ∷ [])

  -- the outer loop
  unfoldable pub read_pages :
      S → List (Result Failure (List Entry)) → List String → Result Failure (List String)
  read_pages s [] result = ok result
  read_pages s (page ∷ pages) result =
      page >>= λ entries. read_page s entries result >>= λ result'. read_pages s pages result'

  -- `read_all`
  unfoldable pub read_all : S → Result Failure (List String)
  read_all s = read_pages s (o.pages s) []
