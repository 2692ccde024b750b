-- ===== src/App/Routes.antt =====
-- The routes of the service that touch its tables: recserve_app/api.py, with `Database.export` of
-- recserve_app/db.py. The identity provider and the texts of titles are parameters.
pub mod Pages
pub mod Callback
use Prim.Native.String.{◌++◌ as join}
use recserve.Prelude.{
  ℕ, zero, suc, ◌+◌, ◌≡◌, String, Bool, true, false, ◌&&◌, ◌||◌, not, Option, none, some, List, [],
  ◌∷◌, ◌++◌, map, keep, take, drop, length, ltb, leb, same, if◌then◌else◌,
}
use recserve.Exec.{Result, ok, err, pure, raise, gets, raise_if, modify, atomically, ◌>>=◌, ◌>>◌}
use recserve.Pilot.Payload.{codes}
use recserve.App.Selection.{Movie, Catalog, movie_of}
use recserve.App.Schema.{
  Failure, http_exception, UserRow, IdentityRow, Taste, PreferenceRow, ItemState, RequestRow,
  FeedbackRow, FlowRow, Tables,
}
use recserve.App.Accounts.{
  ActionOn, Texts, FlowSecrets, lock_user, rate, start_flow, consume_flow, login,
}
use recserve.App.Deletion.{Ledger, delete_account}
use recserve.App.Policy.{Service, account}

pub record Me : Type 0 where
  pub id : String
  pub consent_version : Option String
  pub required_consent : String
  pub preference_revision : ℕ

-- the rows of an account, of the five tables that are exported
pub record Export : Type 0 where
  pub identities : List IdentityRow
  pub preferences : List PreferenceRow
  pub item_states : List ItemState
  pub requests : List RequestRow
  pub events : List FeedbackRow

pub record MoviePage : Type 0 where
  pub items : List Movie
  pub next_cursor : Option ℕ

pub record PreferencePage : Type 0 where
  pub items : List (ℕ × Taste)
  pub preference_revision : ℕ

pub record Watched : Type 0 where
  pub movie : Movie
  pub saved : Bool
  pub watched : Bool
  pub dismissed : Bool

-- `me`
unfoldable pub me : String → String → ActionOn Me
me required uid = atomically do
  row ← lock_user uid
  pure (record {
    id = uid;
    consent_version = row.consent_version;
    required_consent = required;
    preference_revision = row.revision;
  })

set_consent : String → String → List UserRow → List UserRow
set_consent uid version [] = []
set_consent uid version (u ∷ rows) =
    (if same u.id uid then record u { consent_version = some version } else u)
    ∷ set_consent uid version rows

-- `consent`
unfoldable pub consent : String → String → ActionOn String
unfolding set_consent
consent required uid = atomically do
  lock_user uid
  modify (λ t. record t { users = set_consent uid required t.users })
  pure required

-- `Database.export`
unfoldable pub export : String → ActionOn Export
export uid = atomically do
  lock_user uid
  gets (λ t. record {
    identities = keep (λ r. same r.user_id uid) t.identities;
    preferences = keep (λ r. same r.user_id uid) t.preferences;
    item_states = keep (λ r. same r.user_id uid) t.item_states;
    requests = keep (λ r. same r.user_id uid) t.requests;
    events = keep (λ r. same r.user_id uid) t.events;
  })

-- `remove`, without a ledger and with one
unfoldable pub remove :
    Option Ledger
    → String
    → String
    → ℕ
    → Bool
    → Tables
    → List String
    → Result Failure (Unit {0}) × Tables × List String
remove none uid id stamp commits t entries =
    (err (http_exception 503 "Deletion ledger unavailable"), t, entries)
remove (some ledger) uid id stamp commits t entries =
    let (r, t', entries') = delete_account ledger uid id stamp commits t entries in
    (
      elim r [
        | ok _ ↦ ok tt
        | err x ↦ elim x [
          | http_exception status detail ↦ err (http_exception status detail)
          | _ ↦
              err (
                http_exception 503 "Deletion could not be confirmed; retry or contact the operator")
        ]
      ],
      t',
      entries',
    )

-- a page of what was found
unfoldable pub page_at : ℕ → List Movie → MoviePage
page_at cursor found = record {
  items = take 20 (drop cursor found);
  next_cursor = if ltb (cursor + 20) (length found) then some (cursor + 20) else none;
}

module _ {F : Type 0} (service : Service F) where
  -- `movies`; `matches` is whether the query is in the title, with `casefold` on both
  unfoldable pub movies : (Movie → Bool) → ℕ → String → ActionOn MoviePage
  movies matches cursor uid = do
    atomically (account service uid)
    pure (page_at cursor (keep (λ m. m.available && matches m) service.catalog.movies))

  -- `get_preferences`
  unfoldable pub get_preferences : String → ActionOn PreferencePage
  get_preferences uid = atomically do
    user ← account service uid
    gets (λ t. record {
      items = map (λ r. (r.item_id, r.value)) (keep (λ r. same r.user_id uid) t.preferences);
      preference_revision = user.revision;
    })

  -- the rows whose movie is in the catalog
  listed : List ItemState → List Watched
  listed [] = []
  listed (s ∷ rows) =
      let rest = listed rows in
      elim (movie_of s.item_id service.catalog.movies) [
        | none ↦ rest
        | some m ↦
            record { movie = m; saved = s.saved; watched = s.watched; dismissed = s.dismissed }
            ∷ rest
      ]

  -- `watchlist`
  unfoldable pub watchlist : String → ActionOn (List Watched)
  unfolding listed
  watchlist uid =
      atomically
        do account service uid; gets (λ t. listed (keep (λ s. same s.user_id uid) t.item_states))

-- what `ready` looks at: the last reconciliation, the revision of the schema, the policy, and a probe
-- of the retrieval
pub record Readiness : Type 0 where
  pub privacy_ready : Bool
  pub revision : String
  pub has_policy : Bool
  pub retrieves : Bool

-- `ready`
unfoldable pub ready : Readiness → Result Failure String
ready r =
    if not r.privacy_ready
    then err (http_exception 503 "Privacy ledger replay unavailable")
    else if not (same r.revision "0001")
    then err (http_exception 503 "Unsupported database revision")
    else if not r.has_policy
    then err (http_exception 503 "Model not configured")
    else if not r.retrieves
    then err (http_exception 503 "Retrieval not ready")
    else ok r.revision

module _ (x : Texts) where
  -- `login` up to the redirection, from an address
  unfoldable pub start_login : String → FlowSecrets → ℕ → ActionOn (Unit {0})
  start_login address secrets stamp = do
    rate (join "login:" (x.hashed address)) 10 stamp
    start_flow x secrets stamp

  -- the test of the two parameters
  abbrev pub is_answer : String → String → Bool
  is_answer state code = not (
      same state ""
      || (same code "" || (ltb 128 (length (codes state)) || ltb 4096 (length (codes code)))))

  -- the login after the identity provider has answered for the flow, `none` if it failed
  unfoldable pub enter :
      String → String → String → ℕ → Option (String × String) → ActionOn (Unit {0})
  enter token csrf fresh stamp none t = (err (http_exception 400 "Identity verification failed"), t)
  enter token csrf fresh stamp (some (subject, email)) t =
      login x token csrf fresh subject email stamp t

  unfoldable pub after_flow :
      (String → String → Option (String × String))
      → String
      → String
      → String
      → ℕ
      → FlowRow
      → ActionOn (Unit {0})
  after_flow exchange token csrf fresh stamp flow =
      enter token csrf fresh stamp (exchange flow.nonce flow.verifier)

  -- `callback`; `exchange` is the identity provider's answer to the code, by nonce and verifier
  unfoldable pub callback :
      (String → String → String → Option (String × String))
      → String
      → String
      → String
      → String
      → String
      → String
      → ℕ
      → ActionOn (Unit {0})
  callback exchange state browser code token csrf fresh stamp t =
      let entered =
        (consume_flow x state browser stamp >>= after_flow (exchange code) token csrf fresh stamp)
          t in
      if is_answer state code
      then entered
      else (err (http_exception 400 "Invalid login response"), t)
