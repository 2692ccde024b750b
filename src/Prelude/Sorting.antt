-- ===== src/Prelude/Sorting.antt =====
-- Python's `sorted`, as a stable insertion sort by a Boolean comparison.
use mathlib.Core.Path.{◌≡◌, refl}
use mathlib.Core.Bool.{Bool, true, false}
use mathlib.Core.List.{List, [], ◌∷◌, Perm}
use mathlib.Core.List.Perm
use native.Mathlib.Omega.{arith}
use Prim.Native.Nat.{suc}
use recserve.Prelude.Tests.{if◌then◌else◌, Bool-cases}
use recserve.Prelude.Lists.{All, length, any}
use mathlib.Core.Logic.{inl, inr}

module _ {ℓ} {A : Type ℓ} (le : A → A → Bool) where
  unfoldable pub insert : A → List A → List A
  insert x [] = x ∷ []
  insert x (y ∷ ys) = let rest = insert x ys in if le x y then x ∷ y ∷ ys else y ∷ rest

  unfoldable pub sort : List A → List A
  unfolding insert
  sort [] = []
  sort (x ∷ xs) = insert x (sort xs)

  abbrev pub Leads : A → List A → Type 0
  Leads x [] = Unit
  Leads x (y ∷ ys) = le x y ≡ true

  -- Each element is in order with the next.
  abbrev pub IsSorted : List A → Type 0
  IsSorted [] = Unit
  IsSorted (x ∷ xs) = Leads x xs × IsSorted xs

  perm-insert : (x : A) (ys : List A) → Perm (insert x ys) (x ∷ ys)
  unfolding insert
  perm-insert x [] = Perm.refl (x ∷ [])
  perm-insert x (y ∷ ys) = elim (Bool-cases (le x y)) [
    | inl before ↦ rw before (Perm.refl (x ∷ y ∷ ys))
    | inr after ↦ rw after (Perm.trans (Perm.cons y (perm-insert x ys)) (Perm.swap x y ys))
  ]

  pub perm-sort : (xs : List A) → Perm (sort xs) xs
  unfolding sort
  perm-sort [] = Perm.refl []
  perm-sort (x ∷ xs) = Perm.trans (perm-insert x (sort xs)) (Perm.cons x (perm-sort xs))

  All-insert {κ} : (P : A → Type κ) (x : A) (ys : List A) → P x → All P ys → All P (insert x ys)
  unfolding insert
  All-insert P x [] px h = (px, tt)
  All-insert P x (y ∷ ys) px (py, h) = elim (Bool-cases (le x y)) [
    | inl before ↦ rw before (px, (py, h))
    | inr after ↦ rw after (py, All-insert P x ys px h)
  ]

  pub All-sort {κ} : (P : A → Type κ) (xs : List A) → All P xs → All P (sort xs)
  unfolding sort
  All-sort P [] h = tt
  All-sort P (x ∷ xs) (px, h) = All-insert P x (sort xs) px (All-sort P xs h)

  length-insert : (x : A) (ys : List A) → length (insert x ys) ≡ suc (length ys)
  unfolding insert
  length-insert x [] = refl
  length-insert x (y ∷ ys) = ground (arith, length-insert x ys)

  pub length-sort : (xs : List A) → length (sort xs) ≡ length xs
  unfolding sort
  length-sort [] = refl
  length-sort (x ∷ xs) = omega (arith, length-insert x (sort xs), length-sort xs)

  pub any-insert : (p : A → Bool) (x : A) (ys : List A) → any p (insert x ys) ≡ any p (x ∷ ys)
  unfolding insert
  any-insert p x [] = refl
  any-insert p x (y ∷ ys) = ground (arith, any-insert p x ys)

  pub any-sort : (p : A → Bool) (xs : List A) → any p (sort xs) ≡ any p xs
  unfolding sort
  any-sort p [] = refl
  any-sort p (x ∷ xs) = ground (arith, any-insert p x (sort xs), any-sort p xs)

  module _ (total : (a b : A) → le a b ≡ false → le b a ≡ true) where
    Leads-insert : (x y : A) (ys : List A) → le y x ≡ true → Leads y ys → Leads y (insert x ys)
    unfolding insert
    Leads-insert x y [] yx h = yx
    Leads-insert x y (z ∷ zs) yx h = elim (Bool-cases (le x z)) [
      | inl before ↦ rw before yx
      | inr after ↦ rw after h
    ]

    insert-IsSorted : (x : A) (ys : List A) → IsSorted ys → IsSorted (insert x ys)
    unfolding insert
    insert-IsSorted x [] h = (tt, tt)
    insert-IsSorted x (y ∷ ys) (yl, h) = elim (Bool-cases (le x y)) [
      | inl before ↦ rw before (before, (yl, h))
      | inr after ↦ rw after (Leads-insert x y ys (total x y after) yl, insert-IsSorted x ys h)
    ]

    pub sort-IsSorted : (xs : List A) → IsSorted (sort xs)
    unfolding sort
    sort-IsSorted [] = tt
    sort-IsSorted (x ∷ xs) = insert-IsSorted x (sort xs) (sort-IsSorted xs)
