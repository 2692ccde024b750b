-- ===== src/Pilot/Journal.antt =====
-- The invariant of the pilot's database, over every sequence of calls (recserve_pilot/store.py).
use recserve.Prelude.{
  ℕ, ◌+◌, ◌-◌, ◌≤◌, ◌<◌, ◌≡◌, refl, subst, ◌⊎◌, inl, inr, String, Bool, true, false, Option, none,
  some, List, [], ◌∷◌, ◌&&◌, any, any-find?, All, All-map, same, same_iff, Bool-cases, Option-cases,
  if◌then◌else◌, arith,
}
use recserve.Exec.{ok}
use recserve.Pilot.Payload.{Payload, Value, Event, Kind, shown, kind_eq, is_shown}
use recserve.Pilot.Tables.{Db, Response, Impression, EventRow}
use recserve.Pilot.Store.{
  find_impression, is_exposed, find_event, is_recorded, open_store, fresh, publish,
  insert_exposures, impression_of,
}
use recserve.Pilot.Store.Publishing.{publish_cases}
use recserve.Pilot.Apply.{apply, check_event, record_event, set_unavailable, event_row, CrashPoint}
use recserve.Pilot.Apply.Recording.{record_event-ok, record_event-journal}
use recserve.Pilot.Apply.Recovery.{apply_atomic}
use recserve.Pilot.Apply.Projection.{IsProjected, record_event-IsProjected}
use recserve.Pilot.Fence.{Step, applied, published, marked, Reach, here, next}

-- Among these rows, is the action recorded?
abbrev pub has_action : String → String → Kind → List EventRow → Bool
has_action request_id item kind =
    any (λ r. same r.request_id request_id && same r.item_id item && kind_eq r.kind kind)

abbrev pub has_id : String → List EventRow → Bool
has_id event_id = any (λ r. same r.event_id event_id)

-- From the newest row to the oldest: the sequence numbers fall, no event ID and no action of an
-- issued item stands twice, and an outcome has its `shown` below it.
abbrev pub IsJournal : ℕ → List EventRow → Type 0
IsJournal last [] = Unit
IsJournal last (r ∷ rows) =
    (r.sequence ≤ last)
    × (has_id r.event_id rows ≡ false)
    × (has_action r.request_id r.item_id r.kind rows ≡ false)
    × ((is_shown r.kind ≡ true) ⊎ (has_action r.request_id r.item_id shown rows ≡ true))
    × (0 < r.sequence)
    × IsJournal (r.sequence - 1) rows

-- The event is about an item of a response that was issued to its user.
abbrev pub IsReferenced : {F : Type 0} → Db F → EventRow → Type 0
IsReferenced {F} db r =
    (is_exposed r.request_id r.item_id db ≡ true)
    × (i : Impression F) × (find_impression r.request_id db ≡ some i)
    × (i.user_id ≡ r.payload.user_id)

pub record IsSound {F : Type 0} (db : Db F) : Type 0 where
  pub journal : IsJournal db.last_sequence db.events
  pub referenced : All (IsReferenced db) db.events
  pub projected : IsProjected db

add_sub_one : (n : ℕ) → n + 1 - 1 ≡ n
add_sub_one n = omega arith

-- What the checks of a new event have found.
check_event-references :
    {F : Type 0} (e : Event) (stamp : ℕ) (db : Db F)
    → check_event e stamp db ≡ ok tt
    → (is_exposed e.request_id e.item_id db ≡ true)
      × (i : Impression F) × (find_impression e.request_id db ≡ some i)
      × (i.user_id ≡ e.user_id)
unfolding check_event
check_event-references e stamp db h = elim (Option-cases (find_impression e.request_id db)) [
  | inl absent ↦ ground arith
  | inr (i, found) ↦ (ground arith, i, found, ground (arith, same_iff i.user_id e.user_id))
]

check_event-acknowledged :
    {F : Type 0} (e : Event) (stamp : ℕ) (db : Db F)
    → check_event e stamp db ≡ ok tt
    → (is_shown e.kind ≡ true) ⊎ (is_recorded e.request_id e.item_id shown db ≡ true)
unfolding check_event
check_event-acknowledged e stamp db h = ground arith

IsReferenced-moves :
    {F : Type 0} (db d : Db F)
    → d.exposures ≡ db.exposures
    → d.impressions ≡ db.impressions
    → (r : EventRow) → IsReferenced db r
    → IsReferenced d r
IsReferenced-moves db d ex im r (shown_to, i, found, owner) =
    (rw ex shown_to, i, rw im found, owner)

record_event-IsSound :
    {F : Type 0} (e : Event) (stamp : ℕ) (db d : Db F)
    → IsSound db
    → find_event e.event_id db ≡ none
    → record_event e stamp db ≡ ok d
    → IsSound d
record_event-IsSound e stamp db d h new written =
    let (events, last, _, impressions, exposures, _, _, _) =
      record_event-journal e stamp db d written in
    let (checked, fresh, _) = record_event-ok e stamp db d written in
    record {
      journal =
          rw (events, last)
            (
              omega arith,
              any-find? _ db.events new,
              fresh,
              check_event-acknowledged e stamp db checked,
              omega arith,
              rw (add_sub_one db.last_sequence) h.journal,
            );
      referenced = rw events (
        IsReferenced-moves db d exposures impressions (event_row e stamp db)
            (check_event-references e stamp db checked),
        All-map (IsReferenced-moves db d exposures impressions) db.events h.referenced,
      );
      projected = record_event-IsProjected e stamp db d h.projected written;
    }

apply-IsSound :
    {F : Type 0} (payload : Payload) (crash : Option CrashPoint) (stamp : ℕ) (db : Db F)
    → IsSound db
    → IsSound (apply payload crash stamp db).1
apply-IsSound payload crash stamp db h = elim (apply_atomic payload crash stamp db) [
  | inl kept ↦ rw kept h
  | inr (e, _, new, written, _) ↦ record_event-IsSound e stamp db _ h new written
]

-- The rows of earlier responses stay.
insert_exposures-keeps :
    {F : Type 0} (p : String × String → Bool) (request_id : String) (items : List (String × F))
    (rows : List (String × String)) (rows' : List (String × String))
    → insert_exposures request_id items rows ≡ ok rows'
    → any p rows ≡ true
    → any p rows' ≡ true
unfolding insert_exposures
insert_exposures-keeps p request_id [] rows rows' e h = ground arith
insert_exposures-keeps p request_id ((item, s) ∷ items) rows rows' e h =
    insert_exposures-keeps p request_id items ((request_id, item) ∷ rows) rows' (ground arith)
      (ground arith)

-- A new impression has a request ID that was free, so it hides none.
pub find_impression-new :
    {F : Type 0} (db : Db F) (i j : Impression F) (request_id : String)
    → find_impression i.request_id db ≡ none
    → find_impression request_id db ≡ some j
    → (if same i.request_id request_id then some i else find_impression request_id db) ≡ some j
find_impression-new db i j request_id free found =
    elim (Bool-cases (same i.request_id request_id)) [
      | inl e ↦ cc (free, found, (same_iff i.request_id request_id).0 e)
      | inr e ↦ rw e found
    ]

publish-IsSound :
    {F : Type 0} (response : Response F) (k now : ℕ) (db : Db F)
    → IsSound db
    → IsSound (publish response k now db).1
publish-IsSound response k now db h = elim (publish_cases response k now db) [
  | inl (kept, _) ↦ rw kept h
  | inr (inl (kept, _)) ↦ rw kept h
  | inr (inr (_, free, _, exposures, inserted, e)) ↦ rw e (record {
    journal = h.journal;
    referenced =
        All-map
          (λ r (shown_to, i, found, owner). (
            insert_exposures-keeps _ response.request_id response.items db.exposures exposures
                inserted shown_to,
            i,
            find_impression-new db (impression_of response k now) i r.request_id free found,
            owner,
          ))
          db.events h.referenced;
    projected = record { counted = h.projected.counted; blocks = h.projected.blocks };
  })
]

-- the tables that the invariant is about
record SameTables {F : Type 0} (db d : Db F) : Type 0 where
  sequence : d.last_sequence ≡ db.last_sequence
  events : d.events ≡ db.events
  impressions : d.impressions ≡ db.impressions
  exposures : d.exposures ≡ db.exposures
  item_features : d.item_features ≡ db.item_features
  blocked : d.blocked ≡ db.blocked

SameTables-IsSound : {F : Type 0} (db d : Db F) → SameTables db d → IsSound db → IsSound d
SameTables-IsSound db d t h = record {
  journal = rw (t.sequence, t.events) h.journal;
  referenced =
      rw t.events
        (All-map (IsReferenced-moves db d t.exposures t.impressions) db.events h.referenced);
  projected = record {
    counted = λ item. rw (t.item_features, t.events) (h.projected.counted item);
    blocks = λ user item. rw (t.blocked, t.events) (h.projected.blocks user item);
  };
}

set_unavailable-SameTables :
    {F : Type 0} (item : Value) (value : Bool) (db : Db F)
    → SameTables db (set_unavailable item value db).1
unfolding set_unavailable
set_unavailable-SameTables item value db = ground arith

set_unavailable-IsSound :
    {F : Type 0} (item : Value) (value : Bool) (db : Db F)
    → IsSound db
    → IsSound (set_unavailable item value db).1
set_unavailable-IsSound item value db h =
    SameTables-IsSound db _ (set_unavailable-SameTables item value db) h

Step-IsSound : {F : Type 0} {db d : Db F} → Step db d → IsSound db → IsSound d
Step-IsSound {db} (applied payload crash stamp e) h = rw e (apply-IsSound payload crash stamp db h)
Step-IsSound {db} (published response k now e) h = rw e (publish-IsSound response k now db h)
Step-IsSound {db} (marked item value e) h = rw e (set_unavailable-IsSound item value db h)

-- Whatever is called in whatever order, process crashes included: the journal holds each event ID
-- and each action once, every event is about an item that was issued to its user, every outcome
-- follows its `shown`, and the projection is the rebuild from the journal.
pub Reach-IsSound : {F : Type 0} {db d : Db F} → Reach db d → IsSound db → IsSound d
Reach-IsSound here h = h
Reach-IsSound (next r s) h = Step-IsSound s (Reach-IsSound r h)

-- A file that `Store` has created is sound.
pub open_store-IsSound :
    {F : Type 0} (fingerprint : String) (db : Db F)
    → open_store fingerprint none ≡ ok db
    → IsSound db
unfolding open_store
open_store-IsSound fingerprint db e =
    let same_db : fresh fingerprint ≡ db = ground arith in
    subst IsSound same_db (record {
      journal = tt;
      referenced = tt;
      projected = record { counted = λ item. refl; blocks = λ user item. refl };
    })
