-- ===== src/App/Model/Selecting.antt =====
-- What a bundle that the service has accepted means for a selection (recserve_app/model.py).
use recserve.Prelude.{
  ℕ, ◌≡◌, refl, subst, Bool, true, Option, some, List, [], ◌∷◌, any, all, All, ◌==◌, arith,
  Bool-cases, Option-cases, inl, inr,
}
use recserve.Prelude.Int.{ℤ}
use recserve.Exec.{Result, ok, Result-cases}
use recserve.App.Selection.{Movie, Catalog, Trouble, Selection, movie_of, mem, select_items}
use recserve.App.Selection.Picks.{has_pick}
use recserve.App.Selection.Replenished.{IsSelection, IsOffered, select_items-IsSelection}
use recserve.App.Model.{
  Manifest, Stored, Loaded, movies_from, popular_from, naturals, same_identities, check_arrays,
  check_catalog, policy_of, load,
}

any-movie_of :
    (i : ℕ) (movies : List Movie)
    → any (λ m. m.id == i) movies ≡ true
    → (m : Movie) × (movie_of i movies ≡ some m)
unfolding movie_of
any-movie_of i [] h = cc
any-movie_of i (m ∷ movies) h = elim (Option-cases (movie_of i movies)) [
  | inr (later, found) ↦ (later, rw found refl)
  | inl out ↦ elim (Bool-cases (m.id == i)) [
    | inl this ↦ (m, rw (out, this) refl)
    | inr that ↦
        (let (n, found) = any-movie_of i movies (ground (arith, h, that)) in
          absurd (cc (out, found)))
  ]
]

all-known :
    (popular : List ℕ) (movies : List Movie)
    → all (λ i. any (λ m. m.id == i) movies) popular ≡ true
    → All (λ i. (m : Movie) × (movie_of i movies ≡ some m)) popular
all-known [] movies h = tt
all-known (i ∷ popular) movies h =
    (any-movie_of i movies (ground (arith, h)), all-known popular movies (ground (arith, h)))

all-popular :
    (popular : List ℕ) (i : ℕ) (movies : List Movie)
    → all (λ m. mem m.id popular) movies ≡ true
    → any (λ m. m.id == i) movies ≡ true
    → mem i popular ≡ true
all-popular popular i [] h k = cc
all-popular popular i (m ∷ movies) h k = elim (Bool-cases (m.id == i)) [
  | inl this ↦
      let one : m.id ≡ i = ground (arith, this) in
      subst (λ j. mem j popular ≡ true) one (ground (arith, h))
  | inr that ↦ all-popular popular i movies (ground (arith, h)) (ground (arith, k, that))
]

movie_of-any :
    (i : ℕ) (movies : List Movie) (m : Movie)
    → movie_of i movies ≡ some m
    → any (λ n. n.id == i) movies ≡ true
unfolding movie_of
movie_of-any i [] m e = cc
movie_of-any i (n ∷ movies) m e = elim (Bool-cases (n.id == i)) [
  | inl this ↦ ground (arith, this)
  | inr that ↦ elim (Option-cases (movie_of i movies)) [
    | inl out ↦ absurd (ground (arith, e, out, that))
    | inr (found, later) ↦ let rest = movie_of-any i movies found later in ground (arith, rest)
  ]
]

-- The popular list has the identities of the movies, all of them and no other.
abbrev IsRanked : List Movie → List ℕ → Type 0
IsRanked movies popular =
    All (λ i. (m : Movie) × (movie_of i movies ≡ some m)) popular
    × ((i : ℕ) (m : Movie) → movie_of i movies ≡ some m → mem i popular ≡ true)

popular_from-known :
    (count : ℕ) (raw : List ℤ) (movies : List Movie) (popular : List ℕ)
    → popular_from count raw movies ≡ some popular
    → IsRanked movies popular
unfolding popular_from same_identities
popular_from-known count raw movies popular e = elim (Option-cases (naturals raw)) [
  | inl bad ↦ absurd (ground (arith, e, bad))
  | inr (ns, read) ↦
      (let known : all (λ i. any (λ m. m.id == i) movies) ns ≡ true = ground (arith, e, read) in
        let whole : all (λ m. mem m.id ns) movies ≡ true = ground (arith, e, read) in
        let this : ns ≡ popular = ground (arith, e, read) in
        subst (IsRanked movies) this (
          all-known ns movies known,
          λ i m found. all-popular ns i movies whole (movie_of-any i movies m found),
        ))
]

check_catalog-known :
    (count : ℕ) (s : Stored) (c : Catalog)
    → check_catalog count s ≡ ok c
    → IsRanked c.movies c.popular
unfolding check_catalog
check_catalog-known count s c e = elim (Option-cases (movies_from s.movies)) [
  | inl bad ↦ absurd (ground (arith, e, bad))
  | inr (movies, read) ↦ elim (Option-cases (popular_from count s.popularity movies)) [
    | inl bad ↦ absurd (ground (arith, e, read, bad))
    | inr (popular, ranked) ↦
        (let this : record { movies = movies; popular = popular } ≡ c =
            ground (arith, e, read, ranked) in
          subst (λ (d : Catalog). IsRanked d.movies d.popular) this
            (popular_from-known count s.popularity movies popular ranked))
  ]
]

load-known :
    {G : Type 0} (in_range : G → Bool) (info : Manifest G) (s : Stored) (l : Loaded G)
    → load in_range info s ≡ ok l
    → IsRanked l.catalog.movies l.catalog.popular
unfolding load
load-known in_range info s l e = elim (Option-cases (policy_of info.policy)) [
  | inl bad ↦ absurd (ground (arith, e, bad))
  | inr (policy, named) ↦ elim (Result-cases (check_arrays s)) [
    | inr (x, bad) ↦ absurd (ground (arith, e, named, bad))
    | inl ((count, dim), shapes) ↦ elim (Result-cases (check_catalog count s)) [
      | inr (x, bad) ↦ absurd (ground (arith, e, named, shapes, bad))
      | inl (c, catalog) ↦
          (let this : c ≡ l.catalog = ground (arith, e, named, shapes, catalog) in
            subst (λ (d : Catalog). IsRanked d.movies d.popular) this
              (check_catalog-known count s c catalog))
    ]
  ]
]

-- Over a bundle that the service has accepted, a selection returns whatever the retrieval answers. Its items are at
-- most `k` different available movies of the bundle, none of them blocked; `exhausted` says that they are fewer
-- than `k`, and then they have every available movie of the bundle that is not blocked.
pub load-select_items :
    {F G : Type 0} (in_range : G → Bool) (info : Manifest G) (s : Stored) (l : Loaded G)
    (query : Option (ℕ → Result Trouble (List (ℕ × F)))) (blocked : List ℕ) (k : ℕ)
    → load in_range info s ≡ ok l
    → (r : Selection) × (select_items l.catalog query blocked k l.policy ≡ ok r)
      × IsSelection l.catalog blocked k r
      × ((i : ℕ) → r.exhausted ≡ true → IsOffered l.catalog blocked i → has_pick i r.items ≡ true)
load-select_items in_range info s l query blocked k e =
    let (known, whole) = load-known in_range info s l e in
    let (r, selected, h) = select_items-IsSelection l.catalog blocked query k l.policy known in
    (
      r,
      selected,
      h,
      λ i exhausted offered. h.complete i exhausted (whole i offered.0 offered.1) offered,
    )
