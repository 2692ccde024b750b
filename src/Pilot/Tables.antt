-- ===== src/Pilot/Tables.antt =====
-- The tables of the pilot's SQLite file, and a connection to it (recserve_pilot/store.py).
use recserve.Prelude.{ℕ, String, Bool, List, Option}
use recserve.Exec.{Exec, ok}
use recserve.Pilot.Payload.{Error, Event, Kind}

pub data Source : Type 0 where
  popularity_cold_start cpp_retrieval popularity_upstream_unavailable : Source
  cpp_retrieval_with_popularity_fill : Source

-- A response to /v1/recommend. `F` is the type of the scores, which are floats.
pub record Response (F : Type 0) : Type 0 where
  pub request_id : String
  pub user_id : String
  pub model_version : String
  pub model_sha256 : String
  pub policy_version : String
  pub feature_generation : ℕ
  pub candidate_source : Source
  pub degraded : Bool
  pub last_feedback_commit_ms : Option ℕ
  pub items : List (String × F)
  pub exhausted : Bool

-- The column `response` holds the canonical JSON text, which is read back as the same value.
pub record Impression (F : Type 0) : Type 0 where
  pub request_id : String
  pub user_id : String
  pub k : ℕ
  pub created_ms : ℕ
  pub response : Response F

-- The column `payload` holds the canonical JSON text of the event.
pub record EventRow : Type 0 where
  pub sequence : ℕ
  pub event_id : String
  pub payload : Event
  pub request_id : String
  pub item_id : String
  pub kind : Kind
  pub committed_ms : ℕ

pub record Feature : Type 0 where
  pub item_id : String
  pub shown : ℕ
  pub saved : ℕ

-- The rows of each table, the newest first. `last_sequence` is the AUTOINCREMENT counter.
pub record Db (F : Type 0) : Type 0 where
  pub fingerprint : String
  pub schema_version : ℕ
  pub generation : ℕ
  pub impressions : List (Impression F)
  pub exposures : List (String × String)
  pub events : List EventRow
  pub last_sequence : ℕ
  pub blocked : List (String × String)
  pub item_features : List Feature
  pub unavailable : List String

-- What is on disk, and what the transaction that is open has made of it.
pub record Connection (F : Type 0) : Type 0 where
  pub disk : Db F
  pub work : Db F

abbrev pub Session : Type 0 → Type 0 → Type 0
Session F A = Exec (Connection F) Error A

module _ {F : Type 0} where
  abbrev pub commit : Session F (Unit {0})
  commit c = (ok tt, record c { disk = c.work })

  abbrev pub write : (Db F → Db F) → Session F (Unit {0})
  write f c = (ok tt, record c { work = f c.work })
