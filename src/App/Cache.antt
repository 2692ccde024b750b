-- ===== src/App/Cache.antt =====
-- The bounded cache of preference vectors: `Model.vector` of recserve_app/model.py. The fold-in is
-- a parameter, and so is what other threads do to the cache while it runs.
pub mod Bounded
use recserve.Prelude.{
  ℕ, suc, String, Bool, ◌&&◌, not, Option, none, some, List, [], ◌∷◌, ◌++◌, keep, length, ltb, ◌==◌,
  same, if◌then◌else◌,
}

-- an account and a revision; the digest of the model is the same in every key
abbrev pub Key : Type 0
Key = String × ℕ

abbrev pub same_key : Key → Key → Bool
same_key a b = same a.0 b.0 && a.1 == b.1

-- the OrderedDict, the oldest entry first
abbrev pub Entries : Type 0 → Type 0
Entries V = List (Key × V)

module _ {V : Type 0} where
  unfoldable pub cached_vector : Key → Entries V → Option V
  cached_vector key [] = none
  cached_vector key ((k, v) ∷ cache) = if same_key k key then some v else cached_vector key cache

  abbrev without : Key → Entries V → Entries V
  without key = keep (λ e. not (same_key e.0 key))

  -- `cache[key] = vector` and `move_to_end(key)`; on a key that is there, `move_to_end` alone
  unfoldable pub at_end : Key → V → Entries V → Entries V
  at_end key v cache = without key cache ++ (key, v) ∷ []

  -- `while len(cache) > 512: popitem(last=False)`
  unfoldable pub trim : Entries V → Entries V
  trim [] = []
  trim (e ∷ cache) =
      let rest = trim cache in if ltb 512 (length (e ∷ cache)) then rest else e ∷ cache

  -- `Model.vector`: the result and the cache
  unfoldable pub vector : (Entries V → Entries V) → V → Key → Entries V → V × Entries V
  vector meanwhile computed key cache = elim (cached_vector key cache) [
    | some v ↦ (v, at_end key v cache)
    | none ↦ (computed, trim (at_end key computed (meanwhile cache)))
  ]
