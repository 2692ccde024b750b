-- ===== src/Pilot/Model/Popularity.antt =====
-- The training history and the popularity order of recserve_pilot/model.py.
use mathlib.Core.List.{Perm}
use recserve.Prelude.{
  ℕ, ◌≡◌, refl, String, Bool, true, false, ◌&&◌, ◌||◌, not, none, some, List, [], ◌∷◌, any, count,
  ltb, ◌==◌, same, same_iff, arith, fun_ext, if◌then◌else◌, subst, Option-cases, Bool-cases, inl,
  inr, ap, ◌∙◌,
}
use recserve.Prelude.Int.{ℤ}
use recserve.Prelude.Sorting.{sort, IsSorted, sort-IsSorted, perm-sort}
use recserve.Exec.{ok, Result-cases}
use recserve.Pilot.Model.{
  Model, History, add_row, add_rows, user_of, item_at, item_row, has_seen, popularity_of,
  popular_before, build_model,
}

-- how many pairs of the history are about `item`
abbrev pub viewers : String → List (String × String) → ℕ
viewers item = count (λ p. same p.1 item)

abbrev pub NoRepeat : List (String × String) → Type 0
NoRepeat [] = Unit
NoRepeat ((user, item) ∷ rows) = (has_seen user item rows ≡ false) × NoRepeat rows

-- whether a training row stands for this user and this item
abbrev pub is_trained : List (String × ℕ) → List String → String → String → ℕ × ℤ → Bool
is_trained users items user item (row, index) =
    elim (user_of row users) [ none ↦ false | some u ↦ same u user ]
    && elim (item_at index items) [ none ↦ false | some i ↦ same i item ]

-- The Counter counts each pair of the history once.
abbrev IsCounted : History → Type 0
IsCounted h =
    ((item : String) → popularity_of item h.popularity ≡ viewers item h.seen) × NoRepeat h.seen

module _ (users : List (String × ℕ)) (items : List String) where
  add_row-ok :
      (r : ℕ × ℤ) (h h' : History)
      → add_row users items r h ≡ ok h'
      → (user : String) × (item : String) × (user_of r.0 users ≡ some user)
        × (item_at r.1 items ≡ some item)
        × (h' ≡ (
            if has_seen user item h.seen
            then h
            else record { seen = (user, item) ∷ h.seen; popularity = item ∷ h.popularity }))
  unfolding add_row
  add_row-ok (row, index) h h' e = elim (Option-cases (user_of row users)) [
    | inl none_u ↦ ground arith
    | inr (user, u) ↦ elim (Option-cases (item_at index items)) [
      | inl none_i ↦ ground arith
      | inr (item, i) ↦ (user, item, u, i, ground arith)
    ]
  ]

  add_row-IsCounted :
      (r : ℕ × ℤ) (h h' : History) → IsCounted h → add_row users items r h ≡ ok h' → IsCounted h'
  add_row-IsCounted r h h' (counted, once) e =
      let (user, item, _, _, new) = add_row-ok r h h' e in
      elim (Bool-cases (has_seen user item h.seen)) [
        | inl old ↦ rw (new, old) (counted, once)
        | inr fresh ↦ rw (new, fresh) (λ j. ground (arith, counted j), (fresh, once))
      ]

  add_row-seen :
      (user item : String) (r : ℕ × ℤ) (h h' : History)
      → add_row users items r h ≡ ok h'
      → has_seen user item h'.seen
        ≡ (is_trained users items user item r || has_seen user item h.seen)
  unfolding has_seen
  add_row-seen user item r h h' e =
      let (u, i, eu, ei, new) = add_row-ok r h h' e in
      ground (arith, same_iff u user, same_iff i item, new, eu, ei)

  add_rows-IsCounted :
      (rows : List (ℕ × ℤ)) (h h' : History)
      → IsCounted h
      → add_rows users items rows h ≡ ok h'
      → IsCounted h'
  unfolding add_rows
  add_rows-IsCounted [] h h' c e = subst IsCounted (ground arith) c
  add_rows-IsCounted (r ∷ rows) h h' c e = elim (Result-cases (add_row users items r h)) [
    | inr (x, bad) ↦ ground arith
    | inl (h1, first) ↦
        add_rows-IsCounted rows h1 h' (add_row-IsCounted r h h1 c first) (ground arith)
  ]

  add_rows-seen :
      (user item : String) (rows : List (ℕ × ℤ)) (h h' : History)
      → add_rows users items rows h ≡ ok h'
      → has_seen user item h'.seen
        ≡ (any (is_trained users items user item) rows || has_seen user item h.seen)
  unfolding add_rows
  add_rows-seen user item [] h h' e = ground arith
  add_rows-seen user item (r ∷ rows) h h' e = elim (Result-cases (add_row users items r h)) [
    | inr (x, bad) ↦ ground arith
    | inl (h1, first) ↦
        ground (arith, add_row-seen user item r h h1 first, add_rows-seen user item rows h1 h')
  ]

-- more viewers first, then the earlier row in the catalog
abbrev pub viewed_before : List String → List (String × String) → String → String → Bool
viewed_before items seen a b =
    ltb (viewers b seen) (viewers a seen)
    || (viewers a seen == viewers b seen && not (ltb (item_row items b) (item_row items a)))

viewed_before_total :
    (items : List String) (seen : List (String × String)) (a b : String)
    → viewed_before items seen a b ≡ false
    → viewed_before items seen b a ≡ true
viewed_before_total items seen a b e = ground arith

popular_before-eq :
    (items : List String) (h : History)
    → ((item : String) → popularity_of item h.popularity ≡ viewers item h.seen)
    → popular_before items h.popularity ≡ viewed_before items h.seen
unfolding popular_before
popular_before-eq items h counted = fun_ext λ a. fun_ext λ b. rw (counted a, counted b) refl

or_false : (b : Bool) → (b || false) ≡ b
or_false true = refl
or_false false = refl

-- The history of a built model has a pair exactly when a training row stands for it, and no pair
-- twice; its popularity list is the catalog in another order, by the number of users of each item
-- and then by row.
pub build_model-popular :
    (fingerprint version : String) (users : List (String × ℕ)) (items : List String)
    (train : List (ℕ × ℤ)) (m : Model)
    → build_model fingerprint version users items train ≡ ok m
    → ((user item : String)
        → has_seen user item m.seen ≡ any (is_trained users items user item) train)
      × NoRepeat m.seen
      × Perm m.popular items
      × IsSorted (viewed_before items m.seen) m.popular
unfolding build_model has_seen
build_model-popular fingerprint version users items train m e =
    elim (Result-cases (add_rows users items train (record { seen = []; popularity = [] }))) [
      | inr (x, bad) ↦ ground arith
      | inl (h, read) ↦
          let (counted, once) =
            add_rows-IsCounted users items train (record { seen = []; popularity = [] }) h
              (λ j. refl, tt) read in
          let history : m.seen ≡ h.seen = ground arith in
          let order : m.popular ≡ sort (viewed_before items h.seen) items =
            ground arith ∙ ap (λ le. sort le items) (popular_before-eq items h counted) in
          (
            λ user item. rw history (
                add_rows-seen users items user item train (record { seen = []; popularity = [] }) h
                  read
                ∙ or_false _),
            rw history once,
            rw order (perm-sort (viewed_before items h.seen) items),
            rw (order, history)
                (sort-IsSorted (viewed_before items h.seen) (viewed_before_total items h.seen)
                  items),
          )
    ]
