-- ===== src/Pilot/Store/Publishing.antt =====
-- How `Store.publish` goes, case by case (recserve_pilot/store.py).
use recserve.Prelude.{
  ℕ, ◌≡◌, refl, ◌⊎◌, inl, inr, String, true, false, none, some, List, ◌∷◌, ◌==◌, arith, Bool-cases,
  Option-cases, ap,
}
use recserve.Exec.{Result, ok, err, Result-cases}
use recserve.Pilot.Payload.{Error, changed}
use recserve.Pilot.Tables.{Db, Response}
use recserve.Pilot.Store.{publish, cached, insert_exposures, impression_of, find_impression}

abbrev pub with_response : {F : Type 0} → Response F → ℕ → ℕ → List (String × String) → Db F → Db F
with_response response k now exposures db = record db {
  impressions = impression_of response k now ∷ db.impressions;
  exposures = exposures;
}

module _ {F : Type 0} (response : Response F) (k now : ℕ) (db : Db F) where
  publish-refused :
      (x : Error)
      → cached response.request_id response.user_id k db ≡ err x
      → publish response k now db ≡ (err x, db)
  unfolding publish
  publish-refused x e = ground arith

  publish-cached :
      (old : Response F)
      → cached response.request_id response.user_id k db ≡ ok (some old)
      → publish response k now db ≡ (ok old, db)
  unfolding publish
  publish-cached old e = ground arith

  publish-fenced :
      cached response.request_id response.user_id k db ≡ ok none
      → (db.generation == response.feature_generation) ≡ false
      → publish response k now db ≡ (err changed, db)
  unfolding publish
  publish-fenced e g = ground arith

  publish-clash :
      (x : Error)
      → cached response.request_id response.user_id k db ≡ ok none
      → (db.generation == response.feature_generation) ≡ true
      → insert_exposures response.request_id response.items db.exposures ≡ err x
      → publish response k now db ≡ (err x, db)
  unfolding publish
  publish-clash x e g c = ground arith

  publish-written :
      (exposures : List (String × String))
      → cached response.request_id response.user_id k db ≡ ok none
      → (db.generation == response.feature_generation) ≡ true
      → insert_exposures response.request_id response.items db.exposures ≡ ok exposures
      → publish response k now db ≡ (ok response, with_response response k now exposures db)
  unfolding publish
  publish-written exposures e g w = ground arith

  cached-none :
      cached response.request_id response.user_id k db ≡ ok none
      → find_impression response.request_id db ≡ none
  unfolding cached
  cached-none e = ground arith

  -- What the disk is after the call, and what a returned response is.
  abbrev pub Published : Result Error (Response F) × Db F → Type 0
  Published (r, d) =
      ((d ≡ db) × ((x : Error) × (r ≡ err x)))
      ⊎ ((d ≡ db)
          × ((old : Response F) × (r ≡ ok old)
              × (cached response.request_id response.user_id k db ≡ ok (some old))))
      ⊎ ((r ≡ ok response)
          × (find_impression response.request_id db ≡ none)
          × (db.generation ≡ response.feature_generation)
          × (exposures : List (String × String)) × (insert_exposures response.request_id
                response.items db.exposures
              ≡ ok exposures)
          × (d ≡ with_response response k now exposures db))

  pub publish_cases : Published (publish response k now db)
  publish_cases = elim (Result-cases (cached response.request_id response.user_id k db)) [
    | inr (x, e) ↦ rw (publish-refused x e) (inl (refl, (x, refl)))
    | inl (found, e) ↦ elim (Option-cases found) [
      | inr (old, o) ↦
          rw (publish-cached old (rw e (ap ok o))) (inr (inl (refl, (old, refl, rw e (ap ok o)))))
      | inl o ↦
          let none_yet : cached response.request_id response.user_id k db ≡ ok none =
            rw e (ap ok o) in
          elim (Bool-cases (db.generation == response.feature_generation)) [
            | inr g ↦ rw (publish-fenced none_yet g) (inl (refl, (changed, refl)))
            | inl g ↦
                elim (Result-cases
                  (insert_exposures response.request_id response.items db.exposures)) [
                    | inr (x, c) ↦ rw (publish-clash x none_yet g c) (inl (refl, (x, refl)))
                    | inl (exposures, w) ↦
                        rw (publish-written exposures none_yet g w)
                          (inr (inr (refl, cached-none none_yet, ground arith, exposures, w, refl)))
                  ]
          ]
    ]
  ]
