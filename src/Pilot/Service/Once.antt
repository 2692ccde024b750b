-- ===== src/Pilot/Service/Once.antt =====
-- Repeated calls of `Pilot.recommend` with one request ID (recserve_pilot/store.py and service.py).
use recserve.Prelude.{
  ℕ, ◌≡◌, refl, String, some, Bool, same_iff, same_refl, arith, Option-cases, inl, inr,
}
use recserve.Exec.{ok}
use recserve.Pilot.Payload.{Payload, Value}
use recserve.Pilot.Tables.{Db, Response, Impression}
use recserve.Pilot.Store.{cached, find_impression, impression_of, existing}
use recserve.Pilot.Store.Publishing.{publish_cases, with_response}
use recserve.Pilot.Apply.{set_unavailable}
use recserve.Pilot.Apply.Recording.{record_event-journal}
use recserve.Pilot.Apply.Recovery.{apply_atomic}
use recserve.Pilot.Fence.{Reach, here, next, Step, applied, published, marked}
use recserve.Pilot.Journal.{find_impression-new}
use recserve.Pilot.Model.{Floats, Model}
use recserve.Pilot.Service.{World, Request, after_existing, recommend}
use recserve.Pilot.Service.Fresh.{IsShared, store_at, IsIssued, recommend-IsIssued}

module _ {F : Type 0} where
  set_unavailable-impressions :
      (item : Value) (value : Bool) (db : Db F)
      → (set_unavailable item value db).1.impressions ≡ db.impressions
  unfolding set_unavailable
  set_unavailable-impressions item value db = ground arith

  -- An impression that is there stays, and stays the one that is found.
  Step-find_impression :
      (request_id : String) (i : Impression F) {db d : Db F}
      → Step db d
      → find_impression request_id db ≡ some i
      → find_impression request_id d ≡ some i
  Step-find_impression request_id i {db} (applied payload crash stamp e) found =
      elim (apply_atomic payload crash stamp db) [
        | inl kept ↦ rw (e, kept) found
        | inr (v, _, _, written, _) ↦ rw e (rw (record_event-journal v stamp db _ written).3 found)
      ]
  Step-find_impression request_id i {db} (published response k now e) found =
      elim (publish_cases response k now db) [
        | inl (kept, _) ↦ rw (e, kept) found
        | inr (inl (kept, _)) ↦ rw (e, kept) found
        | inr (inr (_, free, _, exposures, _, d)) ↦
            rw (e, d)
              (find_impression-new db (impression_of response k now) i request_id free found)
      ]
  Step-find_impression request_id i {db} (marked item value e) found =
      rw e (rw (set_unavailable-impressions item value db) found)

  Reach-find_impression :
      (request_id : String) (i : Impression F) {db d : Db F}
      → Reach db d
      → find_impression request_id db ≡ some i
      → find_impression request_id d ≡ some i
  Reach-find_impression request_id i here found = found
  Reach-find_impression request_id i (next r s) found =
      Step-find_impression request_id i s (Reach-find_impression request_id i r found)

  cached_row-some :
      (request_id user : String) (k : ℕ) (db : Db F) (r : Response F)
      → cached request_id user k db ≡ ok (some r)
      → (i : Impression F) × (find_impression request_id db ≡ some i)
        × (i.user_id ≡ user)
        × (i.k ≡ k)
        × (i.response ≡ r)
  unfolding cached
  cached_row-some request_id user k db r e = elim (Option-cases (find_impression request_id db)) [
    | inl absent ↦ ground arith
    | inr (i, found) ↦
        (i, found, ground (arith, same_iff i.user_id user), ground arith, ground arith)
  ]

  cached-found :
      (request_id : String) (i : Impression F) (db : Db F)
      → find_impression request_id db ≡ some i
      → cached request_id i.user_id i.k db ≡ ok (some i.response)
  unfolding cached
  cached-found request_id i db found = rw found (ground (arith, same_refl i.user_id))

  Reach-cached :
      (request_id user : String) (k : ℕ) (r : Response F) {db d : Db F}
      → Reach db d
      → cached request_id user k db ≡ ok (some r)
      → cached request_id user k d ≡ ok (some r)
  Reach-cached request_id user k r {db} {d} reach e =
      let (i, found, u, n, answer) = cached_row-some request_id user k db r e in
      rw (← u, ← n, ← answer)
        (cached-found request_id i d (Reach-find_impression request_id i reach found))

  -- What was issued is found again.
  IsIssued-cached :
      (num : Floats F) (m : Model) (q : Request) (w : World F) (start : Db F) (r : Response F)
      (d : Db F)
      → IsIssued num m q w start r d
      → cached q.request_id q.user_id q.k d ≡ ok (some r)
  IsIssued-cached num m q w start r d (inl (n, before, e)) = rw e before
  IsIssued-cached num m q w start r d (inr (n, now, exposures, free, h, e)) =
      rw (e, ← h.request_id, ← h.user_id)
        (cached-found r.request_id (impression_of r q.k now)
          (with_response r q.k now exposures (store_at w start n))
          (rw (same_refl r.request_id) refl))

-- A call that has returned a response returns the same one whenever it is repeated, whatever calls
-- came in between and whatever the upstream replies now, and the repeat writes nothing.
pub recommend_repeat :
    {F : Type 0} (num : Floats F) (m : Model) (w w' : World F) (payload : Payload) (db d d' : Db F)
    (r : Response F)
    → IsShared w
    → recommend num m w payload db ≡ (ok r, d)
    → Reach d d'
    → recommend num m w' payload d' ≡ (ok r, d')
unfolding recommend
recommend_repeat num m w w' payload db d d' r shared e reach =
    let (q, parsed, issued) = recommend-IsIssued num m w payload db d r shared e in
    let again =
      Reach-cached q.request_id q.user_id q.k r reach (IsIssued-cached num m q w db r d issued) in
    rw (parsed, recommend) (unfold existing after_existing in rw again refl)
