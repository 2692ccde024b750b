-- ===== src/App/Policy.antt =====
-- Preferences, recommendations and feedback of an account: `class Policy` of recserve_app/policy.py.
-- The clock, the retrieval for a preference vector and what other clients commit are parameters.
pub mod Repeats
pub mod Accepted
use recserve.Prelude.{
  ℕ, zero, suc, ◌+◌, ◌*◌, String, Bool, true, false, ◌&&◌, ◌||◌, not, Option, none, some, List, [],
  ◌∷◌, ◌++◌, any, keep, find?, map, count, ltb, leb, ◌==◌, same, if◌then◌else◌,
}
use recserve.Exec.{
  Result, ok, err, pure, raise, gets, lift, raise_if, modify, atomically, ◌>>=◌, ◌>>◌,
}
use recserve.App.Selection.{Catalog, Origin, Trouble, Selection, movie_of, select_items}
use recserve.App.Schema.{
  Failure, http_exception, database_error, UserRow, Taste, dislike, neutral, like, PreferenceRow,
  ItemState, Recommended, RequestRow, Action, shown, save, dismiss, watched, Feedback, FeedbackRow,
  Change, Preferences, PreferenceResult, MutationRow, Tables,
}
use recserve.App.Accounts.{ActionOn, day_ms, lock_user, rate}

-- The model's identities and catalog; `retrieval` gives, for an attempt, an account, a revision
-- and its preferences, the query for `model.vector`, or none if there is no vector.
pub record Service (F : Type 0) : Type 0 where
  pub catalog : Catalog
  pub digest : String
  pub policy : Origin
  pub policy_version : String
  pub consent_version : String
  pub retrieval : ℕ → String → ℕ → List (ℕ × Taste) → Option (ℕ → Result Trouble (List (ℕ × F)))

taste_eq : Taste → Taste → Bool
taste_eq dislike dislike = true
taste_eq neutral neutral = true
taste_eq like like = true
taste_eq _ _ = false

-- equality of the JSON of two lists of changes
same_changes : List Change → List Change → Bool
unfolding taste_eq
same_changes [] [] = true
same_changes (a ∷ as') (b ∷ bs) =
    a.item_id == b.item_id && (taste_eq a.value b.value && same_changes as' bs)
same_changes _ _ = false

same_preferences : Preferences → Preferences → Bool
unfolding same_changes
same_preferences a b = same a.request_id b.request_id && same_changes a.changes b.changes

abbrev pub action_eq : Action → Action → Bool
action_eq shown shown = true
action_eq save save = true
action_eq dismiss dismiss = true
action_eq watched watched = true
action_eq _ _ = false

unfoldable pub same_feedback : Feedback → Feedback → Bool
same_feedback a b =
    same a.event_id b.event_id
    && (same a.request_id b.request_id
        && (a.item_id == b.item_id
            && (action_eq a.kind b.kind && a.event_time_ms == b.event_time_ms)))

has_repeat : List Change → Bool
has_repeat [] = false
has_repeat (c ∷ changes) = any (λ d. d.item_id == c.item_id) changes || has_repeat changes

abbrev is_for : String → ℕ → PreferenceRow → Bool
is_for uid item r = same r.user_id uid && r.item_id == item

-- INSERT ... ON CONFLICT (user_id, item_id) DO UPDATE
put_preference : String → ℕ → Taste → List PreferenceRow → List PreferenceRow
put_preference uid item value [] = record { user_id = uid; item_id = item; value = value } ∷ []
put_preference uid item value (r ∷ rows) =
    let rest = put_preference uid item value rows in
    if is_for uid item r then record r { value = value } ∷ rows else r ∷ rest

set_preference : String → Change → List PreferenceRow → List PreferenceRow
unfolding put_preference
set_preference uid c rows = elim c.value [
  | neutral ↦ keep (λ r. not (is_for uid c.item_id r)) rows
  | value ↦ put_preference uid c.item_id value rows
]

is_known : ℕ → Catalog → Bool
is_known item c = elim (movie_of item c.movies) [ none ↦ false | some _ ↦ true ]

-- the loop over the changes
change_rows :
    Catalog → String → List Change → List PreferenceRow → Result Failure (List PreferenceRow)
unfolding is_known set_preference
change_rows catalog uid [] rows = ok rows
change_rows catalog uid (c ∷ changes) rows =
    let rest = change_rows catalog uid changes (set_preference uid c rows) in
    if is_known c.item_id catalog then rest else err (http_exception 422 "Unknown movie")

set_revision : String → ℕ → List UserRow → List UserRow
set_revision uid revision [] = []
set_revision uid revision (u ∷ rows) =
    (if same u.id uid then record u { revision = revision } else u) ∷ set_revision uid revision rows

abbrev pub find_mutation : String → String → Tables → Option MutationRow
find_mutation uid request_id t =
    find? (λ r. same r.user_id uid && same r.request_id request_id) t.mutations

abbrev pub find_request : String → String → Tables → Option RequestRow
find_request uid request_id t =
    find? (λ r. same r.user_id uid && same r.request_id request_id) t.requests

abbrev pub find_feedback : String → String → Tables → Option FeedbackRow
find_feedback uid event_id t =
    find? (λ r. same r.user_id uid && same r.payload.event_id event_id) t.events

is_consent : String → Option String → Bool
is_consent required none = false
is_consent required (some given) = same given required

module _ {F : Type 0} (service : Service F) where
  -- `Policy.account`
  unfoldable pub account : String → ActionOn UserRow
  unfolding is_consent
  account uid = do
    user ← lock_user uid
    raise_if (not (is_consent service.consent_version user.consent_version))
        (http_exception 403 "Research consent required")
    pure user

  -- the checks and the rows of a new change; the count is over the account's rows
  unfoldable pub new_rows : String → Preferences → Tables → Result Failure (List PreferenceRow)
  unfolding has_repeat change_rows
  new_rows uid payload t =
      if has_repeat payload.changes
      then err (http_exception 422 "Duplicate preference item")
      else elim (change_rows service.catalog uid payload.changes t.preferences) [
        | err x ↦ err x
        | ok rows ↦
            if ltb 500 (count (λ r. same r.user_id uid) rows)
            then err (http_exception 422 "Preference limit reached")
            else ok rows
      ]

  abbrev pub preference_result : String → UserRow → List PreferenceRow → PreferenceResult
  preference_result uid user rows = record {
    preference_revision = user.revision + 1;
    count = count (λ r. same r.user_id uid) rows;
  }

  unfoldable pub write_preferences :
      String → Preferences → ℕ → UserRow → List PreferenceRow → Tables → Tables
  unfolding set_revision
  write_preferences uid payload stamp user rows t = record t {
    preferences = rows;
    users = set_revision uid (user.revision + 1) t.users;
    mutations =
        record {
          user_id = uid;
          request_id = payload.request_id;
          payload = payload;
          response = preference_result uid user rows;
          created_ms = stamp;
        }
        ∷ t.mutations;
  }

  unfoldable pub change_found :
      String → Preferences → ℕ → UserRow → Option MutationRow → ActionOn PreferenceResult
  unfolding same_preferences
  change_found uid payload stamp user (some old) t = (
    if same_preferences old.payload payload
        then ok old.response
        else err (http_exception 409 "Idempotency key conflict"),
    t,
  )
  change_found uid payload stamp user none t = elim (new_rows uid payload t) [
    | err x ↦ (err x, t)
    | ok rows ↦
        (ok (preference_result uid user rows), write_preferences uid payload stamp user rows t)
  ]

  unfoldable pub change_session : String → Preferences → ℕ → ActionOn PreferenceResult
  change_session uid payload stamp = account uid >>= λ user t.
      change_found uid payload stamp user (find_mutation uid payload.request_id t) t

  -- `Policy.change_preferences` at the time `stamp`
  unfoldable pub change_preferences : String → Preferences → ℕ → ActionOn PreferenceResult
  change_preferences uid payload stamp = atomically (change_session uid payload stamp)

  abbrev has_action : String → String → ℕ → Action → Tables → Bool
  has_action uid request_id item kind t =
      any
        (λ r.
          same r.user_id uid
          && (same r.payload.request_id request_id
              && (r.payload.item_id == item && action_eq r.payload.kind kind)))
        t.events

  abbrev pub is_issued : ℕ → RequestRow → Bool
  is_issued item r = any (λ p. p.movie.id == item) r.response.selection.items

  -- the checks of a new event, in their order
  unfoldable pub check_feedback : String → Feedback → ℕ → Tables → Result Failure (Unit {0})
  check_feedback uid e stamp t = elim (find_request uid e.request_id t) [
    | none ↦ err (http_exception 422 "Event must reference an issued movie")
    | some r ↦
        if not (is_issued e.item_id r)
        then err (http_exception 422 "Event must reference an issued movie")
        else if not (
            leb stamp (e.event_time_ms + day_ms)
            && (leb r.created_ms (e.event_time_ms + 30000) && leb e.event_time_ms (stamp + 30000)))
        then err (http_exception 422 "Event timestamp out of range")
        else if has_action uid e.request_id e.item_id e.kind t
        then err (http_exception 409 "Action already recorded with another event ID")
        else if not (action_eq e.kind shown) && not (has_action uid e.request_id e.item_id shown t)
        then err (http_exception 409 "Acknowledge display before an outcome")
        else ok tt
  ]

  flag : Action → ItemState → ItemState
  flag shown s = s
  flag save s = record s { saved = true }
  flag dismiss s = record s { dismissed = true }
  flag watched s = record s { watched = true }

  -- INSERT ... ON CONFLICT (user_id, item_id) DO UPDATE SET the column of the action
  put_state : String → ℕ → Action → List ItemState → List ItemState
  unfolding flag
  put_state uid item kind [] =
      flag kind (record {
        user_id = uid;
        item_id = item;
        saved = false;
        watched = false;
        dismissed = false;
      })
      ∷ []
  put_state uid item kind (s ∷ rows) =
      let rest = put_state uid item kind rows in
      if same s.user_id uid && s.item_id == item then flag kind s ∷ rows else s ∷ rest

  unfoldable pub write_event : String → Feedback → ℕ → Tables → Tables
  write_event uid e stamp t = record t {
    events = record { user_id = uid; payload = e; created_ms = stamp } ∷ t.events;
  }

  unfoldable pub write_outcome : String → Feedback → UserRow → Tables → Tables
  unfolding put_state set_revision
  write_outcome uid e user t = if action_eq e.kind shown then t else record t {
    item_states = put_state uid e.item_id e.kind t.item_states;
    users = set_revision uid (user.revision + 1) t.users;
  }

  -- the result is `duplicate`
  unfoldable pub event_found : String → Feedback → ℕ → UserRow → Option FeedbackRow → ActionOn Bool
  unfolding same_feedback
  event_found uid e stamp user (some old) t = (
    if same_feedback old.payload e then ok true else err (http_exception 409 "Event key conflict"),
    t,
  )
  event_found uid e stamp user none t = elim (check_feedback uid e stamp t) [
    | err x ↦ (err x, t)
    | ok _ ↦ (ok false, write_outcome uid e user (write_event uid e stamp t))
  ]

  unfoldable pub event_session : String → Feedback → ℕ → ActionOn Bool
  event_session uid e stamp =
      account uid >>= λ user t. event_found uid e stamp user (find_feedback uid e.event_id t) t

  -- `Policy.event` at the time `stamp`
  unfoldable pub event : String → Feedback → ℕ → ActionOn Bool
  event uid e stamp = atomically (event_session uid e stamp)
