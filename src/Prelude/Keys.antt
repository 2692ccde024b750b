-- ===== src/Prelude/Keys.antt =====
-- Python dicts with text keys, in the order of insertion.
use Prim.Native.String.{String}
use mathlib.Core.Path.{◌≡◌, refl}
use mathlib.Core.Bool.{Bool, true, false}
use mathlib.Core.List.{List, [], ◌∷◌, ◌++◌}
use native.Mathlib.Omega.{arith}
use recserve.Prelude.Tests.{if◌then◌else◌}
use recserve.Prelude.Texts.{same, same_iff}
use recserve.Prelude.Lists.{any, any-append, take}
use Prim.Native.Nat.{ℕ, zero, suc}

module _ {ℓ} {V : Type ℓ} where
  -- `key in d`
  abbrev pub has_key : String → List (String × V) → Bool
  has_key key = any (λ p. same p.0 key)

  -- No key stands twice.
  abbrev pub Distinct : List (String × V) → Type 0
  Distinct [] = Unit
  Distinct ((key, _) ∷ rest) = (has_key key rest ≡ false) × Distinct rest

  -- `d[key] = value`
  abbrev pub put : String → V → List (String × V) → List (String × V)
  put key value [] = (key, value) ∷ []
  put key value (p ∷ d) =
      let rest = put key value d in if same p.0 key then (key, value) ∷ d else p ∷ rest

module _ {ℓ} {V : Type ℓ} where
  pub Distinct-append :
      (key : String) (value : V) (d : List (String × V))
      → has_key key d ≡ false
      → Distinct d
      → Distinct (d ++ (key, value) ∷ [])
  Distinct-append key value [] h k = (refl, tt)
  Distinct-append key value ((j, w) ∷ d) h (first, k) = (
    ground
        (arith, same_iff j key, same_iff key j, any-append (λ p. same p.0 j) d ((key, value) ∷ [])),
    Distinct-append key value d (ground arith) k,
  )

  pub has_key-put :
      (j key : String) (value : V) (d : List (String × V))
      → has_key j (put key value d) ≡ (if same key j then true else has_key j d)
  has_key-put j key value [] = ground arith
  has_key-put j key value ((i, w) ∷ d) =
      ground (arith, same_iff i key, same_iff key j, same_iff i j, has_key-put j key value d)

  pub Distinct-put :
      (key : String) (value : V) (d : List (String × V)) → Distinct d → Distinct (put key value d)
  Distinct-put key value [] h = (refl, tt)
  Distinct-put key value ((i, w) ∷ d) (first, h) =
      ground (
        arith,
        same_iff i key,
        same_iff key i,
        has_key-put i key value d,
        Distinct-put key value d h,
      )

module _ {ℓ} {V : Type ℓ} where
  has_key-take :
      (key : String) (n : ℕ) (d : List (String × V))
      → has_key key d ≡ false
      → has_key key (take n d) ≡ false
  has_key-take key zero d h = refl
  has_key-take key (suc n) [] h = refl
  has_key-take key (suc n) (p ∷ d) h = ground (arith, has_key-take key n d)

  pub Distinct-take : (n : ℕ) (d : List (String × V)) → Distinct d → Distinct (take n d)
  Distinct-take zero d h = tt
  Distinct-take (suc n) [] h = tt
  Distinct-take (suc n) ((key, v) ∷ d) (first, h) =
      (has_key-take key n d first, Distinct-take n d h)
