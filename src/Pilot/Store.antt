-- ===== src/Pilot/Store.antt =====
-- The feedback journal and its projection: `class Store` of recserve_pilot/store.py.
pub mod Publishing
use recserve.Prelude.{
  ℕ, String, Bool, ◌&&◌, not, Option, none, some, List, [], ◌∷◌, map, any, find?, keep, max, ◌==◌,
  same, if◌then◌else◌,
}
use recserve.Exec.{Result, ok, err, pure, gets, lift, raise_if, ◌>>=◌, ◌>>◌}
use recserve.Pilot.Payload.{Error, invalid, conflict, changed, integrity, Checked, Kind, kind_eq}
use recserve.Pilot.Tables.{Response, Impression, EventRow, Feature, Db, Session, commit, write}

module _ {F : Type 0} where
  abbrev pub fresh : String → Db F
  fresh fingerprint = record {
    fingerprint = fingerprint;
    schema_version = 1;
    generation = 0;
    impressions = [];
    exposures = [];
    events = [];
    last_sequence = 0;
    blocked = [];
    item_features = [];
    unavailable = [];
  }

  -- `Store.__init__`: a file without tables is created, any other must be of this model.
  unfoldable pub open_store : String → Option (Db F) → Checked (Db F)
  open_store fingerprint none = ok (fresh fingerprint)
  open_store fingerprint (some db) =
      if same db.fingerprint fingerprint && db.schema_version == 1
      then ok db
      else err
          (invalid "database model/schema mismatch; use an explicit migration or separate database")

  -- `Store.connection`: what is not committed when the block is left, by a return or by an
  -- exception, is rolled back.
  abbrev pub connection : {A : Type 0} → Session F A → Db F → Result Error A × Db F
  connection m db = let (r, c) = m (record { disk = db; work = db }) in (r, c.disk)

  abbrev pub find_impression : String → Db F → Option (Impression F)
  find_impression request_id db = find? (λ r. same r.request_id request_id) db.impressions

  abbrev pub is_exposed : String → String → Db F → Bool
  is_exposed request_id item db = any (λ e. same e.0 request_id && same e.1 item) db.exposures

  abbrev pub find_event : String → Db F → Option EventRow
  find_event event_id db = find? (λ r. same r.event_id event_id) db.events

  -- whether the action of `kind` on an issued item is in the journal
  abbrev pub is_recorded : String → String → Kind → Db F → Bool
  is_recorded request_id item kind db =
      any (λ r. same r.request_id request_id && same r.item_id item && kind_eq r.kind kind)
        db.events

  cached_row : Option (Impression F) → String → ℕ → Checked (Option (Response F))
  cached_row none user k = ok none
  cached_row (some row) user k =
      if same row.user_id user && row.k == k
      then ok (some row.response)
      else err (conflict "request ID already used with different inputs")

  unfoldable pub cached : String → String → ℕ → Db F → Checked (Option (Response F))
  unfolding cached_row
  cached request_id user k db = cached_row (find_impression request_id db) user k

  unfoldable pub existing : String → String → ℕ → Db F → Checked (Option (Response F))
  existing = cached

  -- the rows of `executemany`; the key is (request_id, item_id)
  unfoldable pub insert_exposures :
      String → List (String × F) → List (String × String) → Checked (List (String × String))
  insert_exposures request_id [] rows = ok rows
  insert_exposures request_id ((item, _) ∷ items) rows =
      let rest = insert_exposures request_id items ((request_id, item) ∷ rows) in
      if any (λ e. same e.0 request_id && same e.1 item) rows then err integrity else rest

  abbrev pub impression_of : Response F → ℕ → ℕ → Impression F
  impression_of response k now = record {
    request_id = response.request_id;
    user_id = response.user_id;
    k = k;
    created_ms = now;
    response = response;
  }

  insert_response : Response F → ℕ → ℕ → Session F (Unit {0})
  insert_response response k now = do
    db ← gets (λ c. c.work)
    exposures ← lift (insert_exposures response.request_id response.items db.exposures)
    write (λ d. record d {
      impressions = impression_of response k now ∷ d.impressions;
      exposures = exposures;
    })

  publish_new : Response F → ℕ → ℕ → Option (Response F) → Session F (Response F)
  unfolding insert_response
  publish_new response k now (some old) = pure old
  publish_new response k now none = do
    db ← gets (λ c. c.work)
    raise_if (not (db.generation == response.feature_generation)) changed
    insert_response response k now
    commit
    pure response

  publish_session : Response F → ℕ → ℕ → Session F (Response F)
  unfolding publish_new
  publish_session response k now = do
    db ← gets (λ c. c.work)
    old ← lift (cached response.request_id response.user_id k db)
    publish_new response k now old

  -- `Store.publish` at the time `now`
  unfoldable pub publish : Response F → ℕ → ℕ → Db F → Result Error (Response F) × Db F
  unfolding publish_session
  publish response k now = connection (publish_session response k now)

pub record Snapshot : Type 0 where
  pub generation : ℕ
  pub blocked : List String
  pub unavailable : List String
  pub features : List Feature
  pub last_committed_ms : Option ℕ

-- `SELECT MAX(committed_ms)`, which is NULL over no rows
latest : List EventRow → Option ℕ
latest [] = none
latest (r ∷ rows) = elim (latest rows) [
  | none ↦ some r.committed_ms
  | some t ↦ some (max r.committed_ms t)
]

blocked_items : String → List (String × String) → List String
blocked_items user rows = map (λ r. r.1) (keep (λ r. same r.0 user) rows)

-- `Store.snapshot`, in one read transaction
unfoldable pub snapshot : {F : Type 0} → String → Db F → Snapshot
unfolding latest blocked_items
snapshot user db = record {
  generation = db.generation;
  blocked = blocked_items user db.blocked;
  unavailable = db.unavailable;
  features = db.item_features;
  last_committed_ms = latest db.events;
}
