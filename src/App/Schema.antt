-- ===== src/App/Schema.antt =====
-- The tables of the service: recserve_app/schema_v1.py. A table is the list of its rows; a column
-- of JSON holds the decoded value.
use recserve.Prelude.{ℕ, String, Bool, List, Option}
use recserve.App.Selection.{Selection}

-- `HTTPException`, an error of the database (a broken constraint among them), a failure of the
-- deletion ledger, and another exception that no handler names.
pub data Failure : Type 0 where
  http_exception : ℕ → String → Failure
  database_error ledger_error uncaught : Failure

pub record UserRow : Type 0 where
  pub id : String
  pub created_ms : ℕ
  pub revision : ℕ
  pub consent_version : Option String
  pub disabled : Bool

pub record IdentityRow : Type 0 where
  pub subject : String
  pub user_id : String
  pub email : String

pub record InvitationRow : Type 0 where
  pub email : String
  pub enabled : Bool

pub record SessionRow : Type 0 where
  pub token_hash : String
  pub user_id : String
  pub csrf_hash : String
  pub created_ms : ℕ
  pub seen_ms : ℕ

pub record FlowRow : Type 0 where
  pub state_hash : String
  pub browser_hash : String
  pub nonce : String
  pub verifier : String
  pub created_ms : ℕ

-- The values -1, 0 and 1 of a change; the column has no 0.
pub data Taste : Type 0 where
  dislike neutral like : Taste

pub record PreferenceRow : Type 0 where
  pub user_id : String
  pub item_id : ℕ
  pub value : Taste

pub record ItemState : Type 0 where
  pub user_id : String
  pub item_id : ℕ
  pub saved : Bool
  pub watched : Bool
  pub dismissed : Bool

-- the response that is stored for a request of recommendations
pub record Recommended : Type 0 where
  pub request_id : String
  pub model_version : String
  pub policy_version : String
  pub preference_revision : ℕ
  pub selection : Selection

pub record RequestRow : Type 0 where
  pub user_id : String
  pub request_id : String
  pub k : ℕ
  pub created_ms : ℕ
  pub response : Recommended

pub data Action : Type 0 where
  shown save dismiss watched : Action

pub record Feedback : Type 0 where
  pub event_id : String
  pub request_id : String
  pub item_id : ℕ
  pub kind : Action
  pub event_time_ms : ℕ

pub record FeedbackRow : Type 0 where
  pub user_id : String
  pub payload : Feedback
  pub created_ms : ℕ

pub record Change : Type 0 where
  pub item_id : ℕ
  pub value : Taste

pub record Preferences : Type 0 where
  pub request_id : String
  pub changes : List Change

pub record PreferenceResult : Type 0 where
  pub preference_revision : ℕ
  pub count : ℕ

pub record MutationRow : Type 0 where
  pub user_id : String
  pub request_id : String
  pub payload : Preferences
  pub response : PreferenceResult
  pub created_ms : ℕ

pub record OutboxRow : Type 0 where
  pub id : String
  pub user_id : String
  pub created_ms : ℕ
  pub delivered_ms : Option ℕ

pub record RateRow : Type 0 where
  pub key : String
  pub window : ℕ
  pub count : ℕ

pub record Tables : Type 0 where
  pub users : List UserRow
  pub identities : List IdentityRow
  pub invitations : List InvitationRow
  pub sessions : List SessionRow
  pub oauth_flows : List FlowRow
  pub preferences : List PreferenceRow
  pub item_states : List ItemState
  pub requests : List RequestRow
  pub events : List FeedbackRow
  pub mutations : List MutationRow
  pub outbox : List OutboxRow
  pub rate_limits : List RateRow
