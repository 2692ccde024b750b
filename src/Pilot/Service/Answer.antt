-- ===== src/Pilot/Service/Answer.antt =====
-- What an attempt answers, for any replies of the upstream (recserve_pilot/service.py).
use recserve.Prelude.{
  ℕ, zero, suc, ◌*◌, ◌≤◌, ◌≡◌, refl, ◌∙◌, subst, String, Bool, true, ◌||◌, some, List, [], length,
  length-take, take, take_all, Distinct-take, any, All, All-take, has_key, Distinct, ltb, leb,
  length-take-le, min, same, arith, Bool-cases, Option-cases, inl, inr, ◌⊎◌,
}
use recserve.Exec.{Result, Result-cases}
use recserve.Wire.{Fault}
use recserve.Pilot.Store.{Snapshot}
use recserve.Pilot.Tables.{
  Response, cpp_retrieval, popularity_cold_start, popularity_upstream_unavailable,
}
use recserve.Pilot.Model.{Floats, Model, rank, eligible, scored}
use recserve.Pilot.Model.Ranked.{rank-has, rank-eligible}
use recserve.Prelude.Sorting.{sort}
use recserve.Pilot.Service.{
  Gathered, Request, gather, gather_for, respond, row_of, update, seen_by, complete, response_of,
  fill,
}
use recserve.Pilot.Service.Candidates.{
  Distinct-update, Distinct-fill_from, fill_from-has, Distinct-rank,
}

module _ {F : Type 0} (num : Floats F) (m : Model) (q : Request) (snap : Snapshot) where
  abbrev is_open : String → Bool
  is_open item = eligible item (seen_by q.user_id m.seen) snap.blocked snap.unavailable

  -- an answer to the request over the snapshot
  pub record IsAnswer (r : Response F) : Type 0 where
    pub request_id : r.request_id ≡ q.request_id
    pub user_id : r.user_id ≡ q.user_id
    pub generation : r.feature_generation ≡ snap.generation
    pub eligible_items : All (λ p. is_open p.0 ≡ true) r.items
    pub distinct : Distinct r.items
    pub bounded : length r.items ≤ q.k
    pub exact : r.exhausted ≡ ltb (length r.items) q.k
    pub whole :
        r.exhausted ≡ true
        → (item : String) → any (λ i. same i item) m.popular ≡ true
        → is_open item ≡ true
        → has_key item r.items ≡ true

  -- the candidates are a dict, and the ranking is one of some dict
  IsGathered : Gathered F → Type 0
  IsGathered g =
      Distinct g.candidates
      × (c : List (String × F)) × Distinct c
      × (g.ranked ≡ rank num c (seen_by q.user_id m.seen) snap m.items)

  gather-IsGathered :
      (retrieve : ℕ → Result Fault (List (String × F))) (fuel count : ℕ) (g g' : Gathered F)
      → IsGathered g
      → gather num m retrieve (seen_by q.user_id m.seen) snap q.k fuel count g ≡ some g'
      → IsGathered g'
  unfolding gather IsGathered
  gather-IsGathered retrieve zero count g g' h e = cc
  gather-IsGathered retrieve (suc fuel) count g g' (d, c, dc, r) e =
      elim (Result-cases (retrieve count)) [
        | inr (x, failed) ↦
            let cleared : g'
                ≡ record g { candidates = []; source = popularity_upstream_unavailable } =
              ground arith in
            rw cleared (tt, c, dc, r)
        | inl (more, got) ↦
            let seen = seen_by q.user_id m.seen in
            let candidates = update num m g.candidates more in
            let ranked = rank num candidates seen snap m.items in
            let next : Gathered F = record {
              candidates = candidates;
              source = cpp_retrieval;
              ranked = ranked;
            } in
            let dn = Distinct-update num m g.candidates more d in
            elim (Bool-cases (leb q.k (length ranked) || leb (min 512 (length m.items)) count)) [
              | inl done ↦ let last : g' ≡ next = ground arith in rw last (dn, candidates, dn, refl)
              | inr again ↦
                  gather-IsGathered retrieve fuel (min (min (count * 2) 512) (length m.items)) next
                    g' (dn, candidates, dn, refl) (ground arith)
            ]
      ]

  gather_for-IsGathered :
      (retrieve : ℕ → ℕ → Result Fault (List (String × F))) (g : Gathered F)
      → gather_for num m retrieve q snap ≡ some g
      → IsGathered g
  unfolding gather_for
  gather_for-IsGathered retrieve g e =
      let start : Gathered F = record {
        candidates = [];
        source = popularity_cold_start;
        ranked = [];
      } in
      let empty : IsGathered start = unfold IsGathered rank sort scored in (tt, [], tt, refl) in
      elim (Option-cases (row_of q.user_id m.users)) [
        | inl cold ↦ subst IsGathered (ground arith) empty
        | inr (row, known) ↦
            gather-IsGathered (retrieve row) 4 (min 64 (length m.items)) start g empty
              (ground arith)
      ]

  -- A ranking that is long enough is kept; another one is made from every popular item.
  complete_cases :
      (g : Gathered F)
      → IsGathered g
      → let ranked = (complete num m q snap g).ranked in
        (c : List (String × F)) × Distinct c
        × (ranked ≡ rank num c (seen_by q.user_id m.seen) snap m.items)
        × ((q.k ≤ length ranked)
            ⊎ ((item : String) → any (λ i. same i item) m.popular ≡ true → has_key item c ≡ true))
  unfolding complete IsGathered fill
  complete_cases g (d, c, dc, r) = elim (Bool-cases (ltb (length g.ranked) q.k)) [
    | inl short ↦ rw short (
      fill num m g.candidates,
      Distinct-fill_from num m _ 0 m.popular g.candidates d,
      refl,
      inr (λ item p. fill_from-has num m item _ 0 m.popular g.candidates ∙ rw p refl),
    )
    | inr long ↦ rw long (c, dc, r, inl (ground arith))
  ]

  ltb-length-take : (k : ℕ) (l : List (String × F)) → ltb (length l) k ≡ ltb (length (take k l)) k
  ltb-length-take k l = elim (Bool-cases (ltb (length l) k)) [
    | inl short ↦ rw (take_all k l (ground arith)) refl
    | inr long ↦
        let full : length (take k l) ≡ k = length-take k l (ground arith) in
        rw (full, long) (ground arith)
  ]

  complete_whole :
      (g : Gathered F)
      → IsGathered g
      → let ranked = (complete num m q snap g).ranked in
        ltb (length ranked) q.k ≡ true
        → (item : String) → any (λ i. same i item) m.popular ≡ true
        → is_open item ≡ true
        → has_key item (take q.k ranked) ≡ true
  complete_whole g h short item popular open_item =
      let (c, _, r, enough) = complete_cases g h in
      let ranked = (complete num m q snap g).ranked in
      elim enough [
        | inl long ↦ ground arith
        | inr all_in ↦ rw (take_all q.k ranked (ground arith)) (
            rw r (
              rank-has num (seen_by q.user_id m.seen) snap item c m.items
              ∙ ground (arith, all_in item popular, open_item)))
      ]

  response_of-IsAnswer :
      (g : Gathered F)
      → IsGathered g
      → IsAnswer (response_of num m q snap (complete num m q snap g))
  unfolding response_of
  response_of-IsAnswer g h =
      let (c, dc, r, enough) = complete_cases g h in
      let seen = seen_by q.user_id m.seen in
      let ranked = (complete num m q snap g).ranked in
      record {
        request_id = refl;
        user_id = refl;
        generation = refl;
        eligible_items = All-take _ q.k ranked (rw r (rank-eligible num seen snap c m.items));
        distinct = Distinct-take q.k ranked (rw r (Distinct-rank num m c seen snap dc));
        bounded = length-take-le q.k ranked;
        exact = ltb-length-take q.k ranked;
        whole = complete_whole g h;
      }

  -- Whatever the upstream replies, an attempt's response is for the request and the generation of
  -- its snapshot, has at most k items, all eligible and none twice, and says exactly whether they
  -- are fewer; if they are, no eligible item of the catalog is left out.
  pub respond-IsAnswer :
      (retrieve : ℕ → ℕ → Result Fault (List (String × F))) (r : Response F)
      → respond num m retrieve q snap ≡ some r
      → IsAnswer r
  unfolding respond
  respond-IsAnswer retrieve r e = elim (Option-cases (gather_for num m retrieve q snap)) [
    | inl out ↦ ground arith
    | inr (g, done) ↦
        subst IsAnswer (ground arith)
          (response_of-IsAnswer g (gather_for-IsGathered retrieve g done))
  ]
