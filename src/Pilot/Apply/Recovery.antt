-- ===== src/Pilot/Apply/Recovery.antt =====
-- Process crashes and retries of `Store.apply` (recserve_pilot/store.py).
use recserve.Prelude.{
  ℕ, ◌≡◌, refl, ◌≢◌, ◌⊎◌, inl, inr, true, false, Option, none, some, same_refl, if◌then◌else◌,
  arith, Option-cases, Bool-cases, ◌∙◌,
}
use recserve.Exec.{Result, ok, err, Result-cases}
use recserve.Pilot.Payload.{
  Payload, Event, Kind, shown, save, dismiss, watched, same_payload, parse_event, kind_eq, Error,
  crashed, conflict,
}
use recserve.Pilot.Tables.{Db, EventRow}
use recserve.Pilot.Store.{find_event}
use recserve.Pilot.Apply.{
  apply, record_event, event_row, CrashPoint, before_commit, after_commit, Receipt,
}
use recserve.Pilot.Apply.Recording.{record_event-journal}

kind_eq_refl : (k : Kind) → kind_eq k k ≡ true
kind_eq_refl shown = refl
kind_eq_refl save = refl
kind_eq_refl dismiss = refl
kind_eq_refl watched = refl

same_payload_refl : (e : Event) → same_payload e e ≡ true
unfolding same_payload
same_payload_refl e = ground (
  arith,
  same_refl e.event_id,
  same_refl e.user_id,
  same_refl e.item_id,
  same_refl e.request_id,
  kind_eq_refl e.kind,
)

-- How the transaction of a new event ends: `d` is what it has written over `db`.
abbrev finish : {F : Type 0} → Option CrashPoint → Db F → Db F → Result Error Receipt × Db F
finish none db d = (ok (record { duplicate = false; sequence = d.last_sequence }), d)
finish (some before_commit) db d = (err crashed, db)
finish (some after_commit) db d = (err crashed, d)

finish_disk :
    {F : Type 0} (crash : Option CrashPoint) (db d : Db F)
    → ((finish crash db d).1 ≡ db) ⊎ (((finish crash db d).1 ≡ d) × (crash ≢ some before_commit))
finish_disk none db d = inr (refl, cc)
finish_disk (some before_commit) db d = inl refl
finish_disk (some after_commit) db d = inr (refl, cc)

module _ {F : Type 0} (payload : Payload) (crash : Option CrashPoint) (stamp : ℕ) (db : Db F) where
  apply-invalid :
      (x : Error) → parse_event payload ≡ err x → apply payload crash stamp db ≡ (err x, db)
  unfolding apply
  apply-invalid x bad = ground arith

  apply-found :
      (e : Event) (row : EventRow)
      → parse_event payload ≡ ok e
      → find_event e.event_id db ≡ some row
      → apply payload crash stamp db ≡ (
        (if same_payload row.payload e
            then ok (record { duplicate = true; sequence = row.sequence })
            else err (conflict "event ID reused with different payload")),
        db,
      )
  unfolding apply
  apply-found e row parsed old = ground arith

  apply-refused :
      (e : Event) (x : Error)
      → parse_event payload ≡ ok e
      → find_event e.event_id db ≡ none
      → record_event e stamp db ≡ err x
      → apply payload crash stamp db ≡ (err x, db)
  unfolding apply
  apply-refused e x parsed new refused = ground arith

  apply-written :
      (e : Event) (d : Db F)
      → parse_event payload ≡ ok e
      → find_event e.event_id db ≡ none
      → record_event e stamp db ≡ ok d
      → apply payload crash stamp db ≡ finish crash db d
  unfolding apply
  apply-written e d parsed new written = ground arith

  -- The four ways in which a call goes.
  abbrev Case : Type 0
  Case =
      ((x : Error) × (parse_event payload ≡ err x))
      ⊎ ((e : Event) × (row : EventRow) × (parse_event payload ≡ ok e)
          × (find_event e.event_id db ≡ some row))
      ⊎ ((e : Event) × (x : Error) × (parse_event payload ≡ ok e)
          × (find_event e.event_id db ≡ none)
          × (record_event e stamp db ≡ err x))
      ⊎ ((e : Event) × (d : Db F) × (parse_event payload ≡ ok e)
          × (find_event e.event_id db ≡ none)
          × (record_event e stamp db ≡ ok d))

  cases : Case
  cases = elim (Result-cases (parse_event payload)) [
    | inr (x, bad) ↦ inl (x, bad)
    | inl (e, parsed) ↦ elim (Option-cases (find_event e.event_id db)) [
      | inr (row, old) ↦ inr (inl (e, row, parsed, old))
      | inl new ↦ elim (Result-cases (record_event e stamp db)) [
        | inr (x, refused) ↦ inr (inr (inl (e, x, parsed, new, refused)))
        | inl (d, written) ↦ inr (inr (inr (e, d, parsed, new, written)))
      ]
    ]
  ]

  -- The disk is left alone, or it holds all that the transaction of this new event writes; it is
  -- left alone if the process ends before the commit.
  pub apply_atomic :
      let disk = (apply payload crash stamp db).1 in
      (disk ≡ db)
      ⊎ ((e : Event) × (parse_event payload ≡ ok e)
          × (find_event e.event_id db ≡ none)
          × (record_event e stamp db ≡ ok disk)
          × (crash ≢ some before_commit))
  apply_atomic = elim cases [
    | inl (x, bad) ↦ inl (rw (apply-invalid x bad))
    | inr (inl (e, row, parsed, old)) ↦ inl (rw (apply-found e row parsed old))
    | inr (inr (inl (e, x, parsed, new, refused))) ↦ inl (rw (apply-refused e x parsed new refused))
    | inr (inr (inr (e, d, parsed, new, written))) ↦
        rw (apply-written e d parsed new written) (elim (finish_disk crash db d) [
          | inl same_disk ↦ inl same_disk
          | inr (whole, late) ↦ inr (e, parsed, new, rw (whole, written) refl, late)
        ])
  ]

-- Once an event is written, any call with it is acknowledged as a duplicate and writes nothing.
apply_again :
    {F : Type 0} (payload : Payload) (crash : Option CrashPoint) (stamp stamp' : ℕ) (db d : Db F)
    (e : Event)
    → parse_event payload ≡ ok e
    → record_event e stamp db ≡ ok d
    → apply payload crash stamp' d
      ≡ (ok (record { duplicate = true; sequence = d.last_sequence }), d)
apply_again payload crash stamp stamp' db d e parsed written =
    let journal = record_event-journal e stamp db d written in
    let found : find_event e.event_id d ≡ some (event_row e stamp db) =
      rw journal.0 (rw (same_refl e.event_id) refl) in
    rw (apply-found payload crash stamp' d e (event_row e stamp db) parsed found)
      (rw (same_payload_refl e, journal.1) refl)

-- A call that ended in any way, a crash included, and a retry of it leave the disk as one call
-- that is not interrupted, at the time of the first or of the second.
pub apply_retry :
    {F : Type 0} (payload : Payload) (crash : Option CrashPoint) (stamp stamp' : ℕ) (db : Db F)
    → let retried = (apply payload none stamp' (apply payload crash stamp db).1).1 in
      (retried ≡ (apply payload none stamp db).1) ⊎ (retried ≡ (apply payload none stamp' db).1)
apply_retry payload crash stamp stamp' db = elim (apply_atomic payload crash stamp db) [
  | inl kept ↦ inr (rw kept refl)
  | inr (e, parsed, new, written, _) ↦
      let d = (apply payload crash stamp db).1 in
      inl (
        rw (apply_again payload none stamp stamp' db d e parsed written)
          (rw (apply-written payload none stamp db e d parsed new written) refl))
]

-- After an accepted event, a repeat of it at any time is a duplicate with the same sequence
-- number, and changes nothing.
pub apply_repeat :
    {F : Type 0} (payload : Payload) (stamp stamp' : ℕ) (db : Db F) (receipt : Receipt)
    → (apply payload none stamp db).0 ≡ ok receipt
    → let d = (apply payload none stamp db).1 in
      apply payload none stamp' d
      ≡ (ok (record { duplicate = true; sequence = receipt.sequence }), d)
apply_repeat payload stamp stamp' db receipt h = elim (cases payload none stamp db) [
  | inl (x, bad) ↦ cc (h, apply-invalid payload none stamp db x bad)
  | inr (inl (e, row, parsed, old)) ↦ rw (apply-found payload none stamp db e row parsed old) (
      rw (apply-found payload none stamp' db e row parsed old)
        (ground (arith, h, apply-found payload none stamp db e row parsed old)))
  | inr (inr (inl (e, x, parsed, new, refused))) ↦
      cc (h, apply-refused payload none stamp db e x parsed new refused)
  | inr (inr (inr (e, d, parsed, new, written))) ↦
      rw (apply-written payload none stamp db e d parsed new written) (
        rw (apply_again payload none stamp stamp' db d e parsed written)
          (ground (arith, h, apply-written payload none stamp db e d parsed new written)))
]

-- The three results of an `apply` that no crash interrupts.
pub apply-cases :
    {F : Type 0} (payload : Payload) (stamp : ℕ) (db : Db F)
    → ((x : Error) × (apply payload none stamp db ≡ (err x, db)))
      ⊎ ((e : Event) × (row : EventRow) × (parse_event payload ≡ ok e)
          × (find_event e.event_id db ≡ some row)
          × (same_payload row.payload e ≡ true)
          × (apply payload none stamp db
              ≡ (ok (record { duplicate = true; sequence = row.sequence }), db)))
      ⊎ ((e : Event) × (d : Db F) × (parse_event payload ≡ ok e)
          × (find_event e.event_id db ≡ none)
          × (record_event e stamp db ≡ ok d)
          × (apply payload none stamp db
              ≡ (ok (record { duplicate = false; sequence = d.last_sequence }), d)))
apply-cases payload stamp db = elim (cases payload none stamp db) [
  | inl (x, bad) ↦ inl (x, apply-invalid payload none stamp db x bad)
  | inr (inl (e, row, parsed, old)) ↦ elim (Bool-cases (same_payload row.payload e)) [
    | inl equal ↦ inr (
        inl (
          e,
          row,
          parsed,
          old,
          equal,
          apply-found payload none stamp db e row parsed old ∙ rw equal refl,
        ))
    | inr other ↦ inl (
      conflict "event ID reused with different payload",
      apply-found payload none stamp db e row parsed old ∙ rw other refl,
    )
  ]
  | inr (inr (inl (e, x, parsed, new, refused))) ↦
      inl (x, apply-refused payload none stamp db e x parsed new refused)
  | inr (inr (inr (e, d, parsed, new, written))) ↦
      inr (
        inr
          (e, d, parsed, new, written, apply-written payload none stamp db e d parsed new written))
]
