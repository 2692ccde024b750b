-- ===== src/Pilot/Apply.antt =====
-- `Store.apply` and `Store.set_unavailable` of recserve_pilot/store.py: the journal of feedback
-- and the projection that the same transaction keeps.
pub mod Recording
pub mod Projection
pub mod Recovery
use recserve.Prelude.{
  ℕ, ◌+◌, String, Bool, true, false, ◌&&◌, ◌||◌, not, Option, none, some, List, [], ◌∷◌, any, keep,
  same, if◌then◌else◌,
}
use recserve.Prelude.Int.{ℤ, pos, sub_ℕ, leb_ℤ, ltb_ℤ}
use recserve.Exec.{Result, ok, err, pure, raise, gets, lift, raise_if, ◌>>=◌, ◌>>◌}
use recserve.Pilot.Payload.{
  Payload, Value, Error, invalid, conflict, crashed, Checked, identifier, Kind, shown, save,
  is_shown, Event, same_payload, parse_event,
}
use recserve.Pilot.Tables.{EventRow, Feature, Db, Session, commit, write}
use recserve.Pilot.Store.{connection, find_impression, is_exposed, find_event, is_recorded}

-- Where the hook `crash` ends the process, if anywhere.
pub data CrashPoint : Type 0 where
  before_commit after_commit : CrashPoint

abbrev crash_eq : CrashPoint → Option CrashPoint → Bool
crash_eq before_commit (some before_commit) = true
crash_eq after_commit (some after_commit) = true
crash_eq _ _ = false

pub record Receipt : Type 0 where
  pub duplicate : Bool
  pub sequence : ℕ

abbrev day_ms : ℕ
day_ms = 86400000

abbrev skew_ms : ℕ
skew_ms = 30000

-- `stamp - 86_400_000 <= time <= stamp + 30_000`
unfoldable pub in_window : ℕ → ℤ → Bool
in_window stamp time = leb_ℤ (sub_ℕ stamp day_ms) time && leb_ℤ time (pos (stamp + skew_ms))

bump_shown : String → List Feature → List Feature
bump_shown item [] = []
bump_shown item (f ∷ fs) =
    (if same f.item_id item then record f { shown = f.shown + 1 } else f) ∷ bump_shown item fs

bump_saved : String → List Feature → List Feature
bump_saved item [] = []
bump_saved item (f ∷ fs) =
    (if same f.item_id item then record f { saved = f.saved + 1 } else f) ∷ bump_saved item fs

-- INSERT OR IGNORE INTO item_features(item_id)
ensure_feature : String → List Feature → List Feature
ensure_feature item fs =
    if any (λ f. same f.item_id item) fs
    then fs
    else record { item_id = item; shown = 0; saved = 0 } ∷ fs

-- INSERT OR IGNORE INTO blocked
block : String → String → List (String × String) → List (String × String)
block user item rows =
    if any (λ r. same r.0 user && same r.1 item) rows then rows else (user, item) ∷ rows

project_kind : Kind → Event → {F : Type 0} → Db F → Db F
unfolding bump_shown bump_saved ensure_feature block
project_kind shown e db = record db {
  item_features = bump_shown e.item_id (ensure_feature e.item_id db.item_features);
}
project_kind save e db = record db {
  item_features = bump_saved e.item_id (ensure_feature e.item_id db.item_features);
  blocked = block e.user_id e.item_id db.blocked;
}
project_kind _ e db = record db {
  item_features = ensure_feature e.item_id db.item_features;
  blocked = block e.user_id e.item_id db.blocked;
}

module _ {F : Type 0} where
  -- the checks on the reference to an issued item, the time and the order of actions
  unfoldable pub check_event : Event → ℕ → Db F → Checked (Unit {0})
  unfolding in_window
  check_event e stamp db =
      if not (in_window stamp e.event_time_ms)
      then err (invalid "event older than 24 hours or more than 30 seconds in the future")
      else elim (find_impression e.request_id db) [
        | none ↦ err (invalid "feedback must reference an issued item for the same user")
        | some impression ↦
            if not (same impression.user_id e.user_id) || not (is_exposed e.request_id e.item_id db)
            then err (invalid "feedback must reference an issued item for the same user")
            else if ltb_ℤ e.event_time_ms (sub_ℕ impression.created_ms skew_ms)
            then err (invalid "feedback precedes its recommendation")
            else if not (is_shown e.kind) && not (is_recorded e.request_id e.item_id shown db)
            then err (conflict "acknowledge shown before recording an outcome")
            else ok tt
      ]

  abbrev pub event_row : Event → ℕ → Db F → EventRow
  event_row e stamp db = record {
    sequence = db.last_sequence + 1;
    event_id = e.event_id;
    payload = e;
    request_id = e.request_id;
    item_id = e.item_id;
    kind = e.kind;
    committed_ms = stamp;
  }

  abbrev pub journaled : Event → ℕ → Db F → Db F
  journaled e stamp db = record db {
    events = event_row e stamp db ∷ db.events;
    last_sequence = db.last_sequence + 1;
  }

  -- the INSERT into the journal; the constraint is UNIQUE(request_id, item_id, kind)
  insert_event : Event → ℕ → Db F → Checked (Db F)
  insert_event e stamp db =
      if is_recorded e.request_id e.item_id e.kind db
      then err (conflict "same impression/item action already recorded under another event ID")
      else ok (journaled e stamp db)

  unfoldable pub project : Event → Db F → Db F
  unfolding project_kind
  project e db = project_kind e.kind e db

  unfoldable pub bump_generation : Db F → Db F
  bump_generation db = record db { generation = db.generation + 1 }

  -- all that the transaction of a new event writes
  unfoldable pub record_event : Event → ℕ → Db F → Checked (Db F)
  unfolding insert_event bump_generation
  record_event e stamp db = elim (check_event e stamp db) [
    | err x ↦ err x
    | ok _ ↦ elim (insert_event e stamp db) [
      | err x ↦ err x
      | ok db' ↦ ok (bump_generation (project e db'))
    ]
  ]

  apply_new : Event → Option CrashPoint → ℕ → Session F Receipt
  apply_new e crash stamp = do
    db ← gets (λ c. c.work)
    db' ← lift (record_event e stamp db)
    write (λ _. db')
    raise_if (crash_eq before_commit crash) crashed
    commit
    raise_if (crash_eq after_commit crash) crashed
    pure (record { duplicate = false; sequence = db'.last_sequence })

  apply_found : Event → Option CrashPoint → ℕ → Option EventRow → Session F Receipt
  unfolding apply_new
  apply_found e crash stamp none = apply_new e crash stamp
  apply_found e crash stamp (some old) =
      if same_payload old.payload e
      then pure (record { duplicate = true; sequence = old.sequence })
      else raise (conflict "event ID reused with different payload")

  apply_session : Payload → Option CrashPoint → ℕ → Session F Receipt
  unfolding apply_found
  apply_session payload crash stamp = do
    e ← lift (parse_event payload)
    db ← gets (λ c. c.work)
    apply_found e crash stamp (find_event e.event_id db)

  -- `Store.apply` at the time `stamp`
  unfoldable pub apply : Payload → Option CrashPoint → ℕ → Db F → Result Error Receipt × Db F
  unfolding apply_session
  apply payload crash stamp = connection (apply_session payload crash stamp)

  mark_unavailable : String → Bool → Db F → Db F
  mark_unavailable item true db =
      if any (same item) db.unavailable
      then db
      else record db { unavailable = item ∷ db.unavailable }
  mark_unavailable item false db = record db {
    unavailable = keep (λ i. not (same i item)) db.unavailable;
  }

  -- `Store.set_unavailable`, the hook of the operator
  unfoldable pub set_unavailable : Value → Bool → Db F → Result Error (Unit {0}) × Db F
  unfolding mark_unavailable bump_generation
  set_unavailable item value = connection do
    name ← lift (identifier item)
    write (mark_unavailable name value)
    write bump_generation
    commit
