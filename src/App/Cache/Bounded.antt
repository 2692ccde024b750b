-- ===== src/App/Cache/Bounded.antt =====
-- What the cache of recserve_app/model.py keeps.
use recserve.Prelude.{
  suc, ◌+◌, ◌≤◌, ◌≡◌, refl, ap, Bool, true, false, not, some, [], ◌∷◌, ◌++◌, length, length-append,
  All, All-append, All-keep, any, ltb, same_iff, same_refl, arith, Bool-cases, Option-cases, inl,
  inr,
}
use recserve.App.Cache.{Key, same_key, Entries, cached_vector, without, at_end, trim, vector}

same_key-eq : (a b : Key) → same_key a b ≡ true → a ≡ b
same_key-eq (a, n) (b, k) h = ground (arith, same_iff a b)

same_key_refl : (a : Key) → same_key a a ≡ true
same_key_refl (a, n) = ground (arith, same_refl a)

module _ {V : Type 0} where
  has_entry : Key → Entries V → Bool
  has_entry key = any (λ e. same_key e.0 key)

  -- every entry has the value that belongs to its key
  abbrev pub IsCoherent : (Key → V) → Entries V → Type 0
  IsCoherent value = All (λ e. e.1 ≡ value e.0)

  cached_vector-IsCoherent :
      (value : Key → V) (key : Key) (cache : Entries V) {v : V}
      → IsCoherent value cache
      → cached_vector key cache ≡ some v
      → v ≡ value key
  unfolding cached_vector
  cached_vector-IsCoherent value key [] {v} h e = cc
  cached_vector-IsCoherent value key ((k, x) ∷ cache) {v} (first, h) e =
      elim (Bool-cases (same_key k key)) [
        | inl this ↦ cc (first, same_key-eq k key this, ap (λ o. o) (rw (this, cached_vector) at e))
        | inr other ↦ cached_vector-IsCoherent value key cache h (rw (other, cached_vector) at e)
      ]

  trim-IsCoherent : (P : Key × V → Type 0) (cache : Entries V) → All P cache → All P (trim cache)
  unfolding trim
  trim-IsCoherent P [] h = tt
  trim-IsCoherent P (e ∷ cache) (first, h) = elim (Bool-cases (ltb 512 (suc (length cache)))) [
    | inl long ↦ rw long (trim-IsCoherent P cache h)
    | inr short ↦ rw short (first, h)
  ]

  length-trim : (cache : Entries V) → length (trim cache) ≤ 512
  unfolding trim
  length-trim [] = omega arith
  length-trim (e ∷ cache) = ground (arith, length-trim cache)

  cached_vector-append :
      (key : Key) (v : V) (cache : Entries V)
      → has_entry key cache ≡ false
      → cached_vector key (cache ++ (key, v) ∷ []) ≡ some v
  unfolding cached_vector has_entry
  cached_vector-append key v [] h = rw (same_key_refl key) refl
  cached_vector-append key v ((k, x) ∷ cache) h = elim (Bool-cases (same_key k key)) [
    | inl this ↦ ground (arith, this)
    | inr other ↦ rw other (cached_vector-append key v cache (ground (arith, other)))
  ]

  -- the newest entry survives
  cached_vector-trim :
      (key : Key) (v : V) (cache : Entries V)
      → has_entry key cache ≡ false
      → cached_vector key (trim (cache ++ (key, v) ∷ [])) ≡ some v
  unfolding trim has_entry
  cached_vector-trim key v [] h = cached_vector-append key v [] h
  cached_vector-trim key v ((k, x) ∷ cache) h =
      elim (Bool-cases (ltb 512 (suc (length (cache ++ (key, v) ∷ []))))) [
        | inl long ↦ rw long (cached_vector-trim key v cache (ground arith))
        | inr short ↦ rw short (cached_vector-append key v ((k, x) ∷ cache) h)
      ]

  has_entry-without : (key : Key) (cache : Entries V) → has_entry key (without key cache) ≡ false
  unfolding has_entry
  has_entry-without key [] = refl
  has_entry-without key (e ∷ cache) = elim (Bool-cases (same_key e.0 key)) [
    | inl this ↦ rw this (has_entry-without key cache)
    | inr other ↦ rw other (rw other (has_entry-without key cache))
  ]

  length-without : (key : Key) (cache : Entries V) → length (without key cache) ≤ length cache
  length-without key [] = omega arith
  length-without key (e ∷ cache) = elim (Bool-cases (same_key e.0 key)) [
    | inl this ↦ rw this (omega (arith, length-without key cache))
    | inr other ↦ rw other (omega (arith, length-without key cache))
  ]

  length-without-cached :
      (key : Key) (cache : Entries V) {v : V}
      → cached_vector key cache ≡ some v
      → length (without key cache) + 1 ≤ length cache
  unfolding cached_vector
  length-without-cached key [] {v} h = cc
  length-without-cached key ((k, x) ∷ cache) {v} h = elim (Bool-cases (same_key k key)) [
    | inl this ↦ rw this (omega (arith, length-without key cache))
    | inr other ↦
        rw other
          (omega (arith, length-without-cached key cache {v = v} (rw (other, cached_vector) at h)))
  ]

  at_end-IsCoherent :
      (value : Key → V) (key : Key) (v : V) (cache : Entries V)
      → IsCoherent value cache
      → v ≡ value key
      → IsCoherent value (at_end key v cache)
  unfolding at_end
  at_end-IsCoherent value key v cache h e =
      All-append (λ p. p.1 ≡ value p.0) (without key cache) ((key, v) ∷ [])
        (All-keep (λ p. p.1 ≡ value p.0) (λ p. not (same_key p.0 key)) cache h) (e, tt)

  -- If every entry has the value of its key, also after what other threads do, and the fold-in
  -- gives the value of this key: the result is that value, the cache stays so, has at most 512
  -- entries, and holds the result.
  pub vector-IsCoherent :
      (value : Key → V) (meanwhile : Entries V → Entries V) (computed : V) (key : Key)
      (cache : Entries V)
      → IsCoherent value cache
      → IsCoherent value (meanwhile cache)
      → length cache ≤ 512
      → computed ≡ value key
      → let (v, cache') = vector meanwhile computed key cache in
        (v ≡ value key)
        × IsCoherent value cache'
        × (length cache' ≤ 512)
        × (cached_vector key cache' ≡ some v)
  unfolding vector
  vector-IsCoherent value meanwhile computed key cache h later bound e =
      elim (Option-cases (cached_vector key cache)) [
        | inr (v, hit) ↦
            let right = cached_vector-IsCoherent value key cache h hit in
            rw (hit, vector)
              (
                right,
                at_end-IsCoherent value key v cache h right,
                unfold at_end in
                    omega (
                      arith,
                      bound,
                      length-append (without key cache) ((key, v) ∷ []),
                      length-without-cached key cache {v = v} hit,
                    ),
                unfold at_end in
                    cached_vector-append key v (without key cache) (has_entry-without key cache),
              )
        | inl miss ↦
            rw (miss, vector)
              (
                e,
                trim-IsCoherent (λ p. p.1 ≡ value p.0) (at_end key computed (meanwhile cache))
                    (at_end-IsCoherent value key computed (meanwhile cache) later e),
                length-trim (at_end key computed (meanwhile cache)),
                unfold at_end in
                    cached_vector-trim key computed (without key (meanwhile cache))
                      (has_entry-without key (meanwhile cache)),
              )
      ]
