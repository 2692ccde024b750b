-- ===== src/Pilot/Http/Atomic.antt =====
-- What the HTTP front of recserve_pilot/service.py answers, and what it leaves in the store.
use recserve.Prelude.{
  ◌+◌, ◌≡◌, refl, String, Bool, true, false, none, some, List, same, sym, subst, arith, Bool-cases,
  inl, inr, ◌⊎◌,
}
use recserve.Exec.{ok}
use recserve.Pilot.Payload.{Payload, Error, Event, parse_event, same_payload}
use recserve.Pilot.Tables.{Db, EventRow}
use recserve.Pilot.Model.{Floats, Model}
use recserve.Pilot.Store.{find_event}
use recserve.Pilot.Apply.{Receipt, apply, record_event}
use recserve.Pilot.Apply.Recovery.{apply-cases}
use recserve.Pilot.Http.{
  Request, failure, receipt, Reply, answered, dropped, Surroundings, allowed, Decoded, rejected,
  unreadable, decoded, decode_body, answer_event, handle_payload, process_post, sent, do_post,
  refusal, Slots, all_free, process_request, release,
}

-- What the requests of the clients make of the slots: a request arrives, or one has been served.
pub data Reach : Slots → Type 0 where
  initial : Reach all_free
  arrive : {s : Slots} (starts : Bool) → Reach s → Reach (process_request starts s)
  finish : {s : Slots} → Reach s → Reach (release s)

-- No more than eight requests are served, and no slot is lost.
pub Reach-slots : (s : Slots) → Reach s → s.free + s.serving ≡ 8
unfolding process_request release
Reach-slots _ initial = refl
Reach-slots _ (arrive {s} starts r) = ground (arith, Reach-slots s r)
Reach-slots _ (finish {s} r) = ground (arith, Reach-slots s r)

Decoded-cases :
    (d : Decoded)
    → (d ≡ rejected) ⊎ ((d ≡ unreadable) ⊎ ((payload : Payload) × (d ≡ decoded payload)))
Decoded-cases rejected = inl refl
Decoded-cases unreadable = inr (inl refl)
Decoded-cases (decoded payload) = inr (inr (payload, refl))

module _ {F : Type 0} (num : Floats F) (m : Model) (hosts : List String) where
  -- an answer that says that an event is in the journal
  abbrev pub is_receipt : Reply F → Bool
  is_receipt (answered status (receipt given)) = true
  is_receipt _ = false

  refusal_no_receipt : (x : Error) → is_receipt (refusal x) ≡ false
  unfolding refusal
  refusal_no_receipt (Error.invalid m) = refl
  refusal_no_receipt (Error.conflict m) = refl
  refusal_no_receipt Error.changed = refl
  refusal_no_receipt Error.integrity = refl
  refusal_no_receipt Error.crashed = refl

  -- The event of a payload was in the store, with the same content, or all of it is written now; the receipt is
  -- answered unless the connection fails.
  abbrev pub IsAcknowledged : Surroundings F → Payload → Db F → Reply F × Db F → Type 0
  IsAcknowledged around payload db (reply, db') =
      (e : Event) × (given : Receipt) × (parse_event payload ≡ ok e)
      × (reply ≡ sent around.is_connected (answered 200 (receipt given)))
      × (((row : EventRow) × (find_event e.event_id db ≡ some row)
            × (same_payload row.payload e ≡ true)
            × (given ≡ record { duplicate = true; sequence = row.sequence })
            × (db' ≡ db))
          ⊎ ((find_event e.event_id db ≡ none)
              × (record_event e around.stamp db ≡ ok db')
              × (given ≡ record { duplicate = false; sequence = db'.last_sequence })))

  abbrev pub IsRefused : Db F → Reply F × Db F → Type 0
  IsRefused db (reply, db') = (is_receipt reply ≡ false) × (db' ≡ db)

  sent_no_receipt :
      (is_connected : Bool) (reply : Reply F)
      → is_receipt reply ≡ false
      → is_receipt (sent is_connected reply) ≡ false
  sent_no_receipt true reply h = h
  sent_no_receipt false reply h = refl

  abbrev after : Surroundings F → Reply F × Db F → Reply F × Db F
  after around (reply, db') = (sent around.is_connected reply, db')

  answer_event-cases :
      (around : Surroundings F) (payload : Payload) (db : Db F)
      → IsAcknowledged around payload db
          (after around (answer_event (apply payload none around.stamp db)))
        ⊎ IsRefused db (after around (answer_event (apply payload none around.stamp db)))
  unfolding answer_event
  answer_event-cases around payload db = elim (apply-cases payload around.stamp db) [
    | inl (x, refused) ↦
        inr (
          rw refused (sent_no_receipt around.is_connected (refusal x) (refusal_no_receipt x), refl))
    | inr (inl (e, row, parsed, found, equal, answer)) ↦ inl (
        rw answer (
          e,
          record { duplicate = true; sequence = row.sequence },
          parsed,
          refl,
          inl (row, found, equal, refl, refl),
        ))
    | inr (inr (e, d, parsed, new, written, answer)) ↦ inl (
        rw answer (
          e,
          record { duplicate = false; sequence = d.last_sequence },
          parsed,
          refl,
          inr (new, written, refl),
        ))
  ]

  -- A request for an event is refused before the store is reached, or it is what `apply` gives.
  process_post-choice :
      (around : Surroundings F) (r : Request) (db : Db F)
      → same r.path "/v1/recommend" ≡ false
      → ((reply : Reply F) × (process_post num m hosts around r db ≡ (reply, db))
          × (is_receipt reply ≡ false))
        ⊎ ((payload : Payload) × (decode_body around.int_of around.loads r ≡ decoded payload)
            × (process_post num m hosts around r db
                ≡ answer_event (apply payload none around.stamp db)))
  unfolding process_post handle_payload
  process_post-choice around r db elsewhere = elim (Bool-cases (allowed hosts r)) [
    | inr stranger ↦ inl (answered 403 failure, rw stranger refl, refl)
    | inl local ↦ elim (Bool-cases (same r.path "/v1/events")) [
      | inr unknown ↦ inl (answered 404 failure, rw (local, elsewhere, unknown) refl, refl)
      | inl known ↦ elim (Decoded-cases (decode_body around.int_of around.loads r)) [
        | inl bad ↦ inl (answered 400 failure, rw (local, elsewhere, known, bad) refl, refl)
        | inr (inl broken) ↦ inl (dropped, rw (local, elsewhere, known, broken) refl, refl)
        | inr (inr (payload, read)) ↦
            inr (payload, read, rw (local, elsewhere, known, read) (rw elsewhere refl))
      ]
    ]
  ]

  -- Unless it is for a recommendation, a request has one of two ends. Its body decodes to a valid event: the event was
  -- in the store with the same content, and nothing is written, or its ID was free, and the transaction of the event
  -- has written all of it; the answer is the receipt, unless the connection fails. Or the answer is no receipt,
  -- and the store is as it was.
  pub do_post-events :
      (around : Surroundings F) (r : Request) (db : Db F)
      → same r.path "/v1/recommend" ≡ false
      → ((payload : Payload) × (decode_body around.int_of around.loads r ≡ decoded payload)
          × IsAcknowledged around payload db (do_post num m hosts around r db))
        ⊎ IsRefused db (do_post num m hosts around r db)
  unfolding do_post
  do_post-events around r db elsewhere = elim (process_post-choice around r db elsewhere) [
    | inl (reply, refused, no_receipt) ↦
        inr (rw refused (sent_no_receipt around.is_connected reply no_receipt, refl))
    | inr (payload, read, reached) ↦ elim (answer_event-cases around payload db) [
      | inl done ↦ inl (
        payload,
        read,
        subst (λ p. IsAcknowledged around payload db (after around p)) (sym reached) done,
      )
      | inr refused ↦ inr (subst (λ p. IsRefused db (after around p)) (sym reached) refused)
    ]
  ]
