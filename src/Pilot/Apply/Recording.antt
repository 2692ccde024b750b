-- ===== src/Pilot/Apply/Recording.antt =====
-- What a successful `record_event` has checked and written, for recserve_pilot/store.py.
use recserve.Prelude.{ℕ, ◌+◌, ◌≡◌, false, ◌∷◌, arith}
use recserve.Exec.{ok}
use recserve.Pilot.Payload.{Event}
use recserve.Pilot.Tables.{Db}
use recserve.Pilot.Store.{is_recorded}
use recserve.Pilot.Apply.{
  record_event, check_event, insert_event, bump_generation, project, project_kind, journaled,
  event_row,
}

module _ {F : Type 0} (e : Event) (stamp : ℕ) (db db' : Db F) where
  pub record_event-ok :
      record_event e stamp db ≡ ok db'
      → (check_event e stamp db ≡ ok tt)
        × (is_recorded e.request_id e.item_id e.kind db ≡ false)
        × (db' ≡ bump_generation (project e (journaled e stamp db)))
  unfolding record_event insert_event
  record_event-ok h = ground arith

  events-project : (project e (journaled e stamp db)).events ≡ (journaled e stamp db).events
  unfolding project project_kind
  events-project = ground arith

  -- The new row stands at the head of the journal, and the counter has moved by one.
  pub record_event-journal :
      record_event e stamp db ≡ ok db'
      → (db'.events ≡ event_row e stamp db ∷ db.events)
        × (db'.last_sequence ≡ db.last_sequence + 1)
        × (db'.generation ≡ db.generation + 1)
        × (db'.impressions ≡ db.impressions)
        × (db'.exposures ≡ db.exposures)
        × (db'.unavailable ≡ db.unavailable)
        × (db'.fingerprint ≡ db.fingerprint)
        × (db'.schema_version ≡ db.schema_version)
  unfolding bump_generation project project_kind
  record_event-journal h = ground (arith, record_event-ok h)
