-- ===== src/App/Selection/Picks.antt =====
-- What a selection holds, for any answers of the retrieval (recserve_app/selection.py).
use recserve.Prelude.{
  ℕ, ◌≡◌, refl, ap, ◌∙◌, subst, Bool, true, false, ◌&&◌, not, Option, none, some, List, [], ◌∷◌,
  ◌++◌, any, get_elem?, any-append, All, All-append, length, leb, ◌==◌, arith, Bool-cases,
  Option-cases, inl, inr,
}
use recserve.Exec.{Result, ok, Result-cases}
use recserve.App.Selection.{
  Movie, Origin, popularity, Pick, Catalog, Trouble, Chosen, nothing, movie_of, mem, add, add_rows,
  widen, replenish, retrieved,
}

abbrev pub has_pick : ℕ → List Pick → Bool
has_pick item = any (λ p. p.movie.id == item)

-- No movie stands twice.
abbrev pub Distinct : List Pick → Type 0
Distinct [] = Unit
Distinct (p ∷ ps) = (has_pick p.movie.id ps ≡ false) × Distinct ps

movie_of-id :
    (item : ℕ) (movies : List Movie) {m : Movie} → movie_of item movies ≡ some m → m.id ≡ item
unfolding movie_of
movie_of-id item [] h = cc
movie_of-id item (n ∷ movies) {m} h = ground (arith, movie_of-id item movies {m = m})

module _ (c : Catalog) (blocked : List ℕ) where
  -- a movie of the catalog that may be shown
  abbrev pub IsEligible : Pick → Type 0
  IsEligible p =
      (movie_of p.movie.id c.movies ≡ some p.movie)
      × (mem p.movie.id blocked ≡ false)
      × (p.movie.available ≡ true)

  -- `seen` is the set of the identities of `selected`
  pub record IsChosen (s : Chosen) : Type 0 where
    pub eligible : All IsEligible s.selected
    pub distinct : Distinct s.selected
    pub tracked : (item : ℕ) → mem item s.seen ≡ has_pick item s.selected

  Distinct-append :
      (ps : List Pick) (p : Pick)
      → has_pick p.movie.id ps ≡ false
      → Distinct ps
      → Distinct (ps ++ p ∷ [])
  Distinct-append [] p h d = (refl, tt)
  Distinct-append (q ∷ ps) p h (first, d) = (
    any-append (λ r. r.movie.id == q.movie.id) ps (p ∷ []) ∙ ground arith,
    Distinct-append ps p (ground arith) d,
  )

  add-IsChosen :
      (item : ℕ) (origin : Origin) (s s' : Chosen)
      → IsChosen s
      → add c blocked item origin s ≡ ok s'
      → IsChosen s'
  unfolding add
  add-IsChosen item origin s s' h e = elim (Option-cases (movie_of item c.movies)) [
    | inl unknown ↦ ground arith
    | inr (m, known) ↦
        elim (Bool-cases (not (mem item blocked) && (not (mem item s.seen) && m.available))) [
          | inr skip ↦ subst IsChosen (ground arith) h
          | inl take_it ↦
              let p : Pick = record { movie = m; source = origin } in
              let same_id : m.id ≡ item = movie_of-id item c.movies known in
              let added : record { selected = s.selected ++ p ∷ []; seen = item ∷ s.seen } ≡ s' =
                ground arith in
              let unseen : has_pick m.id s.selected ≡ false = ground (arith, h.tracked item) in
              subst IsChosen added (record {
                eligible = All-append IsEligible s.selected (p ∷ []) h.eligible (
                    (
                      (ap (λ i. movie_of i c.movies) same_id ∙ known, ground arith, ground arith),
                      tt,
                    ));
                distinct = Distinct-append s.selected p unseen h.distinct;
                tracked = λ i.
                    (ground
                      (arith, h.tracked i, any-append (λ q. q.movie.id == i) s.selected (p ∷ [])));
              })
        ]
  ]

  nothing-IsChosen : IsChosen nothing
  nothing-IsChosen = record { eligible = tt; distinct = tt; tracked = λ i. refl }

  add_rows-IsChosen :
      {F : Type 0} (source : Origin) (candidates : List (ℕ × F)) (s s' : Chosen)
      → IsChosen s
      → add_rows c blocked source candidates s ≡ ok s'
      → IsChosen s'
  unfolding add_rows
  add_rows-IsChosen source [] s s' h e = subst IsChosen (ground arith) h
  add_rows-IsChosen source ((row, score) ∷ candidates) s s' h e =
      elim (Option-cases (get_elem? c.movies row)) [
        | inl outside ↦ ground arith
        | inr (m, inside) ↦ elim (Result-cases (add c blocked m.id source s)) [
          | inr (x, failed) ↦ ground arith
          | inl (t, added) ↦
              add_rows-IsChosen source candidates t s' (add-IsChosen m.id source s t h added)
                (ground arith)
        ]
      ]

  widen-IsChosen :
      {F : Type 0} (query : ℕ → Result Trouble (List (ℕ × F))) (k : ℕ) (source : Origin)
      (counts : List ℕ) (s s' : Chosen)
      → IsChosen s
      → widen c query blocked k source counts s ≡ ok s'
      → IsChosen s'
  unfolding widen
  widen-IsChosen query k source [] s s' h e = subst IsChosen (ground arith) h
  widen-IsChosen query k source (count ∷ counts) s s' h e = elim (Result-cases (query count)) [
    | inr (x, failed) ↦ ground arith
    | inl (candidates, found) ↦ elim (Result-cases (add_rows c blocked source candidates nothing)) [
      | inr (x, failed) ↦ ground arith
      | inl (t, added) ↦
          let h' : IsChosen t =
            add_rows-IsChosen source candidates nothing t nothing-IsChosen added in
          elim (Bool-cases (leb k (length t.selected))) [
            | inl enough ↦ subst IsChosen (ground arith) h'
            | inr few ↦ widen-IsChosen query k source counts t s' h' (ground arith)
          ]
    ]
  ]

  pub replenish-IsChosen :
      (k : ℕ) (popular : List ℕ) (s s' : Chosen)
      → IsChosen s
      → replenish c blocked k popular s ≡ ok s'
      → IsChosen s'
  unfolding replenish
  replenish-IsChosen k [] s s' h e = subst IsChosen (ground arith) h
  replenish-IsChosen k (item ∷ popular) s s' h e = elim (Bool-cases (leb k (length s.selected))) [
    | inl enough ↦ subst IsChosen (ground arith) h
    | inr few ↦ elim (Result-cases (add c blocked item popularity s)) [
      | inr (x, failed) ↦ ground arith
      | inl (t, added) ↦
          replenish-IsChosen k popular t s' (add-IsChosen item popularity s t h added)
            (ground arith)
    ]
  ]

  pub retrieved-IsChosen :
      {F : Type 0} (query : Option (ℕ → Result Trouble (List (ℕ × F)))) (k : ℕ) (policy : Origin)
      → IsChosen (retrieved c query blocked k policy).0
  unfolding retrieved
  retrieved-IsChosen none k policy = nothing-IsChosen
  retrieved-IsChosen (some query) k policy =
      elim (Result-cases (widen c query blocked k policy (128 ∷ 256 ∷ 512 ∷ []) nothing)) [
        | inr (x, failed) ↦ rw (failed, retrieved) nothing-IsChosen
        | inl (t, found) ↦
            rw (found, retrieved)
              (widen-IsChosen query k policy (128 ∷ 256 ∷ 512 ∷ []) nothing t nothing-IsChosen
                found)
      ]
