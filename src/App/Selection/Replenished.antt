-- ===== src/App/Selection/Replenished.antt =====
-- The answers of select_items (recserve_app/selection.py): what they hold, and that they come.
use recserve.Prelude.{
  ℕ, zero, suc, ◌≤◌, ◌≡◌, refl, sym, ◌∙◌, subst, Bool, true, false, Option, none, some, List, [],
  ◌∷◌, All, All-take, length, length-take, length-take-le, take, take_all, leb, ltb, ◌==◌, arith,
  Bool-cases, Option-cases, inl, inr,
}
use recserve.Exec.{Result, ok, err, Result-cases}
use recserve.App.Selection.{
  Movie, Origin, popularity, Pick, Catalog, Trouble, Chosen, nothing, movie_of, mem, add, widen,
  replenish, retrieved, select_items, Selection,
}
use recserve.App.Selection.Picks.{
  has_pick, Distinct, IsEligible, IsChosen, retrieved-IsChosen, replenish-IsChosen,
}

has_pick-take :
    (item n : ℕ) (ps : List Pick) → has_pick item ps ≡ false → has_pick item (take n ps) ≡ false
has_pick-take item zero ps h = refl
has_pick-take item (suc n) [] h = refl
has_pick-take item (suc n) (p ∷ ps) h = ground (arith, has_pick-take item n ps)

Distinct-take : (n : ℕ) (ps : List Pick) → Distinct ps → Distinct (take n ps)
Distinct-take zero ps h = tt
Distinct-take (suc n) [] h = tt
Distinct-take (suc n) (p ∷ ps) (first, h) =
    (has_pick-take p.movie.id n ps first, Distinct-take n ps h)

module _ (c : Catalog) (blocked : List ℕ) where
  -- a popular movie that a selection has to offer
  abbrev pub IsOffered : ℕ → Type 0
  IsOffered item =
      (m : Movie) × (movie_of item c.movies ≡ some m)
      × (m.available ≡ true)
      × (mem item blocked ≡ false)

  add-seen :
      (item i : ℕ) (origin : Origin) (s s' : Chosen)
      → add c blocked item origin s ≡ ok s'
      → mem i s.seen ≡ true
      → mem i s'.seen ≡ true
  unfolding add
  add-seen item i origin s s' e h = elim (Option-cases (movie_of item c.movies)) [
    | inl unknown ↦ ground arith
    | inr (m, known) ↦ ground arith
  ]

  add-offered :
      (item : ℕ) (origin : Origin) (s s' : Chosen)
      → add c blocked item origin s ≡ ok s'
      → IsOffered item
      → mem item s'.seen ≡ true
  unfolding add
  add-offered item origin s s' e (m, known, there, shown) = ground arith

  replenish-seen :
      (k i : ℕ) (popular : List ℕ) (s s' : Chosen)
      → replenish c blocked k popular s ≡ ok s'
      → mem i s.seen ≡ true
      → mem i s'.seen ≡ true
  unfolding replenish
  replenish-seen k i [] s s' e h = ground arith
  replenish-seen k i (item ∷ popular) s s' e h = elim (Bool-cases (leb k (length s.selected))) [
    | inl enough ↦ ground arith
    | inr few ↦ elim (Result-cases (add c blocked item popularity s)) [
      | inr (x, failed) ↦ ground arith
      | inl (t, added) ↦
          replenish-seen k i popular t s' (ground arith) (add-seen item i popularity s t added h)
    ]
  ]

  replenish-offered :
      (k i : ℕ) (popular : List ℕ) (s s' : Chosen)
      → replenish c blocked k popular s ≡ ok s'
      → leb k (length s'.selected) ≡ false
      → mem i popular ≡ true
      → IsOffered i
      → mem i s'.seen ≡ true
  unfolding replenish
  replenish-offered k i [] s s' e short here offered = ground arith
  replenish-offered k i (item ∷ popular) s s' e short here offered =
      elim (Bool-cases (leb k (length s.selected))) [
        | inl enough ↦ ground arith
        | inr few ↦ elim (Result-cases (add c blocked item popularity s)) [
          | inr (x, failed) ↦ ground arith
          | inl (t, added) ↦ elim (Bool-cases (item == i)) [
            | inl this ↦
                let same_id : item ≡ i = ground arith in
                replenish-seen k i popular t s' (ground arith) (
                  add-offered i popularity s t
                    (subst (λ j. add c blocked j popularity s ≡ ok t) same_id added) offered)
            | inr other ↦
                replenish-offered k i popular t s' (ground arith) short (ground arith) offered
          ]
        ]
      ]

  add_known :
      (item : ℕ) (origin : Origin) (s : Chosen) {m : Movie}
      → movie_of item c.movies ≡ some m
      → (s' : Chosen) × (add c blocked item origin s ≡ ok s')
  unfolding add
  add_known item origin s {m} known = elim (Result-cases (add c blocked item origin s)) [
    | inl found ↦ found
    | inr (x, failed) ↦ ground arith
  ]

  replenish_total :
      (k : ℕ) (popular : List ℕ) (s : Chosen)
      → All (λ i. (m : Movie) × (movie_of i c.movies ≡ some m)) popular
      → (s' : Chosen) × (replenish c blocked k popular s ≡ ok s')
  unfolding replenish
  replenish_total k [] s h = (s, refl)
  replenish_total k (item ∷ popular) s ((m, known), h) =
      elim (Bool-cases (leb k (length s.selected))) [
        | inl enough ↦ (s, ground arith)
        | inr few ↦
            let (t, added) = add_known item popularity s known in
            let (s', more) = replenish_total k popular t h in (s', ground arith)
      ]

  -- a selection of at most `k` movies of the catalog
  pub record IsSelection (k : ℕ) (r : Selection) : Type 0 where
    pub eligible : All (IsEligible c blocked) r.items
    pub distinct : Distinct r.items
    pub short : length r.items ≤ k
    pub counted : r.exhausted ≡ ltb (length r.items) k
    pub complete :
        (i : ℕ)
        → r.exhausted ≡ true
        → mem i c.popular ≡ true
        → IsOffered i
        → has_pick i r.items ≡ true

  replenished-IsSelection :
      (k : ℕ) (s s' : Chosen) (source : Origin) (degraded : Bool)
      → IsChosen c blocked s
      → replenish c blocked k c.popular s ≡ ok s'
      → IsSelection k (record {
        items = take k s'.selected;
        candidate_source = source;
        degraded = degraded;
        exhausted = ltb (length s'.selected) k;
      })
  replenished-IsSelection k s s' source degraded h e =
      let h' : IsChosen c blocked s' = replenish-IsChosen c blocked k c.popular s s' h e in
      record {
        eligible = All-take (IsEligible c blocked) k s'.selected h'.eligible;
        distinct = Distinct-take k s'.selected h'.distinct;
        short = length-take-le k s'.selected;
        counted = elim (Bool-cases (ltb (length s'.selected) k)) [
          | inl few ↦ rw (take_all k s'.selected (ground arith)) refl
          | inr enough ↦ ground (arith, length-take k s'.selected)
        ];
        complete = λ i exhausted here offered.
            (rw (take_all k s'.selected (ground arith)) (
              sym (h'.tracked i)
              ∙ replenish-offered k i c.popular s s' e (ground arith) here offered));
      }

  -- If the catalog has every popular identity, the code returns, whatever the retrieval answers; then the items are at
  -- most `k` different available movies of the catalog, none of them blocked; `exhausted` says that they are
  -- fewer than `k`, and then they have every popular movie that may be shown.
  pub select_items-IsSelection :
      {F : Type 0} (query : Option (ℕ → Result Trouble (List (ℕ × F)))) (k : ℕ) (policy : Origin)
      → All (λ i. (m : Movie) × (movie_of i c.movies ≡ some m)) c.popular
      → (r : Selection) × (select_items c query blocked k policy ≡ ok r) × IsSelection k r
  unfolding select_items
  select_items-IsSelection query k policy known =
      let (s, source, degraded) = retrieved c query blocked k policy in
      let (s', e) = replenish_total k c.popular s known in
      (
        record {
          items = take k s'.selected;
          candidate_source = source;
          degraded = degraded;
          exhausted = ltb (length s'.selected) k;
        },
        rw (e, select_items) refl,
        replenished-IsSelection k s s' source degraded (retrieved-IsChosen c blocked query k policy)
            e,
      )

  -- If the retrieval fails, the answer is the one without a vector, but for the flag that says that it is degraded.
  pub select_items-degraded :
      {F : Type 0} (query : ℕ → Result Trouble (List (ℕ × F))) (k : ℕ) (policy : Origin)
      (x : Trouble) (r : Selection)
      → widen c query blocked k policy (128 ∷ 256 ∷ 512 ∷ []) nothing ≡ err x
      → select_items {F = F} c none blocked k policy ≡ ok r
      → select_items c (some query) blocked k policy
        ≡ ok (record {
          items = r.items;
          candidate_source = popularity;
          degraded = true;
          exhausted = r.exhausted;
        })
  unfolding select_items retrieved
  select_items-degraded query k policy x r failed plain =
      elim (Result-cases (replenish c blocked k c.popular nothing)) [
        | inr (y, bad) ↦ ground arith
        | inl (s', more) ↦ rw (failed, more, select_items, retrieved) (ground arith)
      ]
