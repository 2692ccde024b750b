-- ===== src/App/Accounts.antt =====
-- Accounts, sessions, the login flow, the rate limit and deletion: `class Database` of
-- recserve_app/db.py. Random values, digests, the clock and the deletion ledger are parameters.
pub mod Limits
pub mod Login
use recserve.Prelude.{
  ℕ, suc, ◌+◌, ◌-◌, ◌*◌, ◌/◌, String, Bool, true, false, ◌&&◌, ◌||◌, not, Option, none, some, List,
  [], ◌∷◌, any, keep, find?, map, ltb, leb, ◌==◌, same, if◌then◌else◌,
}
use recserve.Exec.{
  Result, ok, err, Exec, pure, gets, or_raise, raise_if, modify, atomically, ◌>>=◌, ◌>>◌,
}
use recserve.App.Schema.{
  Failure, http_exception, database_error, UserRow, IdentityRow, SessionRow, FlowRow, RateRow,
  Tables,
}

abbrev pub ActionOn : Type 0 → Type 0
ActionOn A = Exec Tables Failure A

-- the digest of `hashed`, and `str.casefold`
pub record Texts : Type 0 where
  pub hashed : String → String
  pub casefold : String → String

abbrev pub unauthorized : Failure
unauthorized = http_exception 401 "Authentication required"

abbrev pub flow_ms : ℕ
flow_ms = 600000

abbrev pub day_ms : ℕ
day_ms = 86400000

-- INSERT ... ON CONFLICT (key, window) DO UPDATE SET count = count + 1
bump_rate : String → ℕ → List RateRow → List RateRow
bump_rate key window [] = record { key = key; window = window; count = 1 } ∷ []
bump_rate key window (r ∷ rows) =
    let rest = bump_rate key window rows in
    if same r.key key && r.window == window
    then record r { count = r.count + 1 } ∷ rows
    else r ∷ rest

unfoldable pub rate_count : String → ℕ → List RateRow → ℕ
rate_count key window [] = 0
rate_count key window (r ∷ rows) =
    if same r.key key && r.window == window then r.count else rate_count key window rows

count_call : String → ℕ → ActionOn ℕ
unfolding bump_rate rate_count
count_call key window = atomically do
  modify (λ t. record t { rate_limits = bump_rate key window t.rate_limits })
  gets (λ t. rate_count key window t.rate_limits)

-- `Database.rate` at the time `stamp`: the call is counted, whether or not it is refused.
unfoldable pub rate : String → ℕ → ℕ → ActionOn (Unit {0})
unfolding count_call
rate key limit stamp = do
  count ← count_call key (stamp / 60000)
  raise_if (ltb limit count) (http_exception 429 "Rate limit exceeded")

pub record FlowSecrets : Type 0 where
  pub state : String
  pub browser : String
  pub nonce : String
  pub verifier : String

abbrev has_flow : String → Tables → Bool
has_flow state_hash t = any (λ f. same f.state_hash state_hash) t.oauth_flows

check_user : Option UserRow → Result Failure UserRow
check_user none = err unauthorized
check_user (some row) = if row.disabled then err unauthorized else ok row

abbrev pub find_user : String → Tables → Option UserRow
find_user uid t = find? (λ u. same u.id uid) t.users

-- `Database.lock_user`
unfoldable pub lock_user : String → ActionOn UserRow
unfolding check_user
lock_user uid t = (check_user (find_user uid t), t)

abbrev pub is_enabled : String → Tables → Bool
is_enabled uid t = any (λ u. same u.id uid && not u.disabled) t.users

pub record Principal : Type 0 where
  pub user_id : String
  pub token_hash : String
  pub csrf_hash : String

module _ (x : Texts) where
  open x use {hashed, casefold}

  abbrev pub flow_row : FlowSecrets → ℕ → FlowRow
  flow_row s stamp = record {
    state_hash = hashed s.state;
    browser_hash = hashed s.browser;
    nonce = s.nonce;
    verifier = s.verifier;
    created_ms = stamp;
  }

  -- `Database.start_flow`, with the four values that `secrets` gives
  unfoldable pub start_flow : FlowSecrets → ℕ → ActionOn (Unit {0})
  start_flow s stamp = atomically do
    raise ← gets (has_flow (hashed s.state))
    raise_if raise database_error
    modify (λ t. record t { oauth_flows = flow_row s stamp ∷ t.oauth_flows })

  abbrev pub is_flow : String → String → FlowRow → Bool
  is_flow state browser f = same f.state_hash (hashed state) && same f.browser_hash (hashed browser)

  take_flow : String → String → ActionOn (Option FlowRow)
  take_flow state browser = atomically do
    row ← gets (λ t. find? (is_flow state browser) t.oauth_flows)
    modify (λ t. record t { oauth_flows = keep (λ f. not (is_flow state browser f)) t.oauth_flows })
    pure row

  -- the test after the transaction: the row is deleted in any case
  unfoldable pub check_flow : ℕ → Option FlowRow → ActionOn FlowRow
  check_flow stamp none t = (err (http_exception 400 "Invalid or expired login"), t)
  check_flow stamp (some row) t = (
    if ltb flow_ms (stamp - row.created_ms)
        then err (http_exception 400 "Invalid or expired login")
        else ok row,
    t,
  )

  -- `Database.consume_flow`
  unfoldable pub consume_flow : String → String → ℕ → ActionOn FlowRow
  unfolding take_flow
  consume_flow state browser stamp = take_flow state browser >>= check_flow stamp

  abbrev pub user_row : String → ℕ → UserRow
  user_row uid stamp = record {
    id = uid;
    created_ms = stamp;
    revision = 0;
    consent_version = none;
    disabled = false;
  }

  set_email : String → String → List IdentityRow → List IdentityRow
  set_email subject email [] = []
  set_email subject email (i ∷ rows) =
      (if same i.subject subject then record i { email = email } else i)
      ∷ set_email subject email rows

  -- the account of the identity, made if there is none
  unfoldable pub account_of : String → String → String → ℕ → Option IdentityRow → ActionOn String
  unfolding set_email lock_user
  account_of subject email fresh stamp (some identity) = do
    lock_user identity.user_id
    modify (λ t. record t { identities = set_email subject email t.identities })
    pure identity.user_id
  account_of subject email fresh stamp none = do
    taken ←
        gets
          (λ t. any (λ u. same u.id fresh) t.users || any (λ i. same i.user_id fresh) t.identities)
    raise_if taken database_error
    modify (λ t. record t {
      users = user_row fresh stamp ∷ t.users;
      identities = record { subject = subject; user_id = fresh; email = email } ∷ t.identities;
    })
    pure fresh

  abbrev pub session_row : String → String → String → ℕ → SessionRow
  session_row token csrf uid stamp = record {
    token_hash = hashed token;
    user_id = uid;
    csrf_hash = hashed csrf;
    created_ms = stamp;
    seen_ms = stamp;
  }

  -- Login rotates the account's sessions.
  unfoldable pub rotate_session : String → String → String → ℕ → ActionOn (Unit {0})
  rotate_session token csrf uid stamp = do
    modify (λ t. record t { sessions = keep (λ s. not (same s.user_id uid)) t.sessions })
    taken ← gets (λ t. any (λ s. same s.token_hash (hashed token)) t.sessions)
    raise_if taken database_error
    modify (λ t. record t { sessions = session_row token csrf uid stamp ∷ t.sessions })

  -- the identity's account with a new session
  unfoldable pub sign_in :
      String → String → String → String → String → ℕ → Option IdentityRow → ActionOn (Unit {0})
  sign_in token csrf fresh subject email stamp identity =
      account_of subject email fresh stamp identity >>= λ uid. rotate_session token csrf uid stamp

  unfoldable pub login_session :
      String → String → String → String → String → ℕ → ActionOn (Unit {0})
  login_session token csrf fresh subject email stamp t =
      let entered =
        sign_in token csrf fresh subject email stamp
          (find? (λ i. same i.subject subject) t.identities) t in
      if not (any (λ i. same i.email email && i.enabled) t.invitations)
      then (err (http_exception 403 "Invitation required"), t)
      else entered

  -- `Database.login`; `fresh` is the new UUID, and every read of the clock gives `stamp`
  unfoldable pub login : String → String → String → String → String → ℕ → ActionOn (Unit {0})
  login token csrf fresh subject email stamp =
      atomically (login_session token csrf fresh subject (casefold email) stamp)

  -- the join of `authenticate`: a session of the token that is alive at `stamp`
  abbrev pub is_alive : String → ℕ → Tables → SessionRow → Bool
  is_alive token stamp t s =
      same s.token_hash (hashed token)
      && (is_enabled s.user_id t
          && (ltb stamp (s.created_ms + 7 * day_ms) && ltb stamp (s.seen_ms + day_ms)))

  touch : String → ℕ → List SessionRow → List SessionRow
  touch token_hash stamp [] = []
  touch token_hash stamp (s ∷ rows) =
      (if same s.token_hash token_hash then record s { seen_ms = stamp } else s)
      ∷ touch token_hash stamp rows

  -- `Database.authenticate` at the time `stamp`
  unfoldable pub authenticate : String → ℕ → ActionOn Principal
  unfolding touch
  authenticate token stamp = atomically do
    found ← gets (λ t. find? (is_alive token stamp t) t.sessions)
    row ← or_raise found unauthorized
    modify (λ t. record t { sessions = touch row.token_hash stamp t.sessions })
    pure (record { user_id = row.user_id; token_hash = row.token_hash; csrf_hash = row.csrf_hash })
