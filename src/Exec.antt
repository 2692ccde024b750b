-- ===== src/Exec.antt =====
-- Actions on a state that may raise, and the two ways in which the code ends a transaction.
use recserve.Prelude.{◌≡◌, refl, ◌∙◌, arith, ◌⊎◌, inl, inr, Bool, Option, none, some, if◌then◌else◌}

pub data Result {ℓ} (E A : Type ℓ) : Type ℓ where
  ok : A → Result E A
  err : E → Result E A

-- What was written before a raise stays written: a transaction undoes it.
abbrev pub Exec {ℓ} : Type ℓ → Type ℓ → Type ℓ → Type ℓ
Exec S E A = S → Result E A × S

module _ {ℓ} {S E A : Type ℓ} where
  abbrev pub pure : A → Exec S E A
  pure a s = (ok a, s)

  abbrev pub raise : E → Exec S E A
  raise e s = (err e, s)

  abbrev pub gets : (S → A) → Exec S E A
  gets f s = (ok (f s), s)

  abbrev pub lift : Result E A → Exec S E A
  lift r s = (r, s)

  abbrev pub or_raise : Option A → E → Exec S E A
  or_raise none e s = (err e, s)
  or_raise (some a) e s = (ok a, s)

  -- `with engine.begin()`: an exception rolls back, and the end of the block commits.
  abbrev pub atomically : Exec S E A → Exec S E A
  atomically m s = let (r, s') = m s in elim r [ ok a ↦ (ok a, s') | err e ↦ (err e, s) ]

module _ {ℓ} {S E A B : Type ℓ} where
  infixl 5 ◌>>=◌ ◌>>◌
  abbrev pub ◌>>=◌ : Exec S E A → (A → Exec S E B) → Exec S E B
  ◌>>=◌ m f s = let (r, s') = m s in elim r [ ok a ↦ f a s' | err e ↦ (err e, s') ]

  abbrev pub ◌>>◌ : Exec S E A → Exec S E B → Exec S E B
  m >> k = m >>= λ _. k

module _ {S E : Type 0} where
  abbrev pub raise_if : Bool → E → Exec S E (Unit {0})
  raise_if b e s = (if b then err e else ok tt, s)

  abbrev pub modify : (S → S) → Exec S E (Unit {0})
  modify f s = (ok tt, f s)

pub Result-cases {ℓ} :
    {E A : Type ℓ} (r : Result E A) → ((a : A) × (r ≡ ok a)) ⊎ ((e : E) × (r ≡ err e))
Result-cases (ok a) = inl (a, refl)
Result-cases (err e) = inr (e, refl)

-- What a transaction that has returned, and a sequence that has returned, have done.
module _ {S E A : Type 0} where
  pub atomically-ok :
      (m : Exec S E A) (s s' : S) (a : A) → atomically m s ≡ (ok a, s') → m s ≡ (ok a, s')
  atomically-ok m s s' a e = elim (Result-cases (m s).0) [
    | inl (b, done) ↦ ground arith
    | inr (x, failed) ↦ ground arith
  ]

module _ {S E A B : Type 0} where
  pub bind-ok :
      (m : Exec S E A) (f : A → Exec S E B) (s s' : S) (b : B)
      → (m >>= f) s ≡ (ok b, s')
      → (a : A) × (t : S) × (m s ≡ (ok a, t)) × (f a t ≡ (ok b, s'))
  bind-ok m f s s' b e = elim (Result-cases (m s).0) [
    | inl (a, done) ↦ (a, (m s).1, ground arith, ground arith)
    | inr (x, failed) ↦ ground arith
  ]

-- The same, forwards.
module _ {S E A : Type 0} where
  pub atomically-run :
      (m : Exec S E A) (s s' : S) (a : A) → m s ≡ (ok a, s') → atomically m s ≡ (ok a, s')
  atomically-run m s s' a e = ground arith

module _ {S E A B : Type 0} where
  pub bind-run :
      (m : Exec S E A) (f : A → Exec S E B) (s t : S) (a : A) (r : Result E B × S)
      → m s ≡ (ok a, t)
      → f a t ≡ r
      → (m >>= f) s ≡ r
  bind-run m f s t a r e k = ground arith

-- What an action does not write is left by a sequence and by a transaction.
module _ {S E A B C : Type 0} (get : S → C) where
  pub bind-keeps :
      (m : Exec S E A) (f : A → Exec S E B) (s : S) {c : C}
      → get (m s).1 ≡ c
      → ((a : A) (t : S) → get (f a t).1 ≡ get t)
      → get ((m >>= f) s).1 ≡ c
  bind-keeps m f s h k = elim (Result-cases (m s).0) [
    | inl (a, done) ↦ rw (done, ◌>>=◌) (k a (m s).1 ∙ h)
    | inr (x, failed) ↦ rw (failed, ◌>>=◌) h
  ]

module _ {S E A C : Type 0} (get : S → C) where
  pub atomically-keeps :
      (m : Exec S E A) (s : S) → get (m s).1 ≡ get s → get (atomically m s).1 ≡ get s
  atomically-keeps m s h = elim (Result-cases (m s).0) [
    | inl (a, done) ↦ rw (done, atomically) h
    | inr (x, failed) ↦ rw (failed, atomically) refl
  ]
