-- ===== src/Pilot/Service/Rounds.antt =====
-- The number of rounds of the retrieval loop (recserve_pilot/service.py).
use recserve.Prelude.{
  ℕ, zero, suc, ◌*◌, ◌≤◌, ◌≡◌, ◌≢◌, refl, Option-cases, min, String, none, some, List, [], length,
  leb, arith, Bool-cases, inl, inr, ◌⊎◌,
}
use recserve.Exec.{Result, Result-cases}
use recserve.Wire.{Fault}
use recserve.Pilot.Store.{Snapshot}
use recserve.Pilot.Tables.{Response, cpp_retrieval, popularity_cold_start}
use recserve.Pilot.Model.{Floats, Model, rank}
use recserve.Pilot.Service.{
  Gathered, Request, gather, gather_for, respond, row_of, update, seen_by, complete, response_of,
}

doubled : ℕ → ℕ → ℕ
doubled zero n = n
doubled (suc rounds) n = doubled rounds (n * 2)

doubled-ge : (rounds n : ℕ) → n ≤ doubled rounds n
unfolding doubled
doubled-ge zero n = omega arith
doubled-ge (suc rounds) n = omega (arith, doubled-ge rounds (n * 2))

-- capping the count at the limit does not keep it from reaching the limit
doubled-min : (rounds n limit : ℕ) → limit ≤ doubled rounds n → limit ≤ doubled rounds (min n limit)
doubled-min rounds n limit h = elim (Bool-cases (leb n limit)) [
  | inl low ↦ let e : min n limit ≡ n = ground arith in rw e h
  | inr high ↦ let e : min n limit ≡ limit = ground arith in rw e (doubled-ge rounds limit)
]

min_assoc_limit : (a n : ℕ) → min (min a 512) n ≡ min a (min 512 n)
min_assoc_limit a n = omega arith

module _ {F : Type 0} (num : Floats F) (m : Model) where
  gather_step :
      (retrieve : ℕ → Result Fault (List (String × F))) (seen : List String) (snap : Snapshot)
      (k fuel count : ℕ) (g : Gathered F)
      → ((g' : Gathered F)
          → gather num m retrieve seen snap k fuel (min (min (count * 2) 512) (length m.items)) g'
            ≢ none)
        ⊎ (min 512 (length m.items) ≤ count)
      → gather num m retrieve seen snap k (suc fuel) count g ≢ none
  unfolding gather
  gather_step retrieve seen snap k fuel count g (inl later) e =
      elim (Result-cases (retrieve count)) [
        | inr (x, failed) ↦ ground arith
        | inl (more, got) ↦
            let candidates = update num m g.candidates more in
            let ranked = rank num candidates seen snap m.items in
            ground (
              arith,
              later (record { candidates = candidates; source = cpp_retrieval; ranked = ranked }),
            )
      ]
  gather_step retrieve seen snap k fuel count g (inr done) e =
      elim (Result-cases (retrieve count)) [
        | inr (x, failed) ↦ ground arith
        | inl (more, got) ↦ ground (arith, done)
      ]

  gather-ne-none :
      (retrieve : ℕ → Result Fault (List (String × F))) (seen : List String) (snap : Snapshot)
      (k fuel count : ℕ) (g : Gathered F)
      → min 512 (length m.items) ≤ doubled fuel count
      → gather num m retrieve seen snap k (suc fuel) count g ≢ none
  unfolding doubled
  gather-ne-none retrieve seen snap k zero count g h =
      gather_step retrieve seen snap k zero count g (inr h)
  gather-ne-none retrieve seen snap k (suc fuel) count g h =
      gather_step retrieve seen snap k (suc fuel) count g (
        inl (λ g'.
          gather-ne-none retrieve seen snap k fuel (min (min (count * 2) 512) (length m.items)) g' (
            rw (min_assoc_limit (count * 2) (length m.items))
              (doubled-min fuel (count * 2) (min 512 (length m.items)) h))))

  gather_for_total :
      (retrieve : ℕ → ℕ → Result Fault (List (String × F))) (q : Request) (snap : Snapshot)
      → (g : Gathered F) × (gather_for num m retrieve q snap ≡ some g)
  unfolding gather_for
  gather_for_total retrieve q snap = elim (Option-cases (row_of q.user_id m.users)) [
    | inl cold ↦ (
      record { candidates = []; source = popularity_cold_start; ranked = [] },
      rw (cold, gather_for) refl,
    )
    | inr (row, known) ↦
        let start : Gathered F = record {
          candidates = [];
          source = popularity_cold_start;
          ranked = [];
        } in
        let seen = seen_by q.user_id m.seen in
        elim (Option-cases
          (gather num m (retrieve row) seen snap q.k 4 (min 64 (length m.items)) start)) [
            | inr (g, done) ↦ (g, rw (known, gather_for) done)
            | inl out ↦ absurd (
                gather-ne-none (retrieve row) seen snap q.k 3 (min 64 (length m.items)) start
                  (unfold doubled in omega arith) out)
          ]
  ]

  -- The fuel that the loop is given suffices: every attempt has an answer.
  pub respond_total :
      (retrieve : ℕ → ℕ → Result Fault (List (String × F))) (q : Request) (snap : Snapshot)
      → (r : Response F) × (respond num m retrieve q snap ≡ some r)
  unfolding respond
  respond_total retrieve q snap =
      let (g, done) = gather_for_total retrieve q snap in
      (response_of num m q snap (complete num m q snap g), rw (done, respond) refl)
