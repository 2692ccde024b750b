-- ===== src/Tests/Accounts.antt =====
-- The theorems about the account service at concrete tables: one account, "u", that has a session,
-- has consented, and was issued the film 10.
use recserve.Prelude.{
  ℕ, ◌-◌, ◌≡◌, ◌≢◌, ◌⊎◌, refl, String, true, false, none, some, List, [], ◌∷◌, All, any, count, min,
  same, same_refl, arith,
}
use recserve.Exec.{ok, err}
use recserve.App.Selection.{
  Movie, popularity, Catalog, movie_of, add, replenish, retrieved, select_items,
}
use recserve.App.Selection.Replenished.{IsSelection}
use recserve.App.Schema.{
  http_exception, like, dislike, shown, Feedback, Preferences, Recommended, Tables,
}
use recserve.App.Accounts.{
  Principal, Texts, FlowSecrets, flow_row, start_flow, consume_flow, lock_user, account_of,
  rotate_session, sign_in, login_session, login, authenticate, rate, rate_count,
}
use recserve.App.Accounts.Limits.{passes, counted, passes-min}
use recserve.App.Accounts.Login.{login-authenticate, start_flow-consume_flow}
use recserve.App.Deletion.{Ledger, deletion_row, delete_account, replay_deletions, maintenance}
use recserve.App.Deletion.Forgetting.{IsErased, delete_account-IsErased}
use recserve.App.Deletion.Retention.{authenticate-maintenance}
use recserve.App.Policy.{
  Service, account, find_request, new_rows, write_preferences, change_found, change_session,
  change_preferences, check_feedback, write_event, write_outcome, event_found, event_session, event,
}
use recserve.App.Policy.Repeats.{change_preferences_repeat, event_repeat}
use recserve.App.Recommend.{
  Query, Around, blocked_for, look_at, look_found, look_session, look, answer, issue_found,
  issue_session, issue, continue_with, attempt_once, attempts, recommend,
}
use recserve.App.Principals.{WebRequest, guard, count_mutation, principal, logout}
use recserve.App.Principals.Logout.{logout-authenticate}
use recserve.App.Recommend.Stored.{IsStored, recommend-IsStored}
use recserve.App.Recommend.Fresh.{IsFresh, IsUntouched, attempt_once-IsFresh}
use recserve.App.Policy.Accepted.{IsAcceptable, event-IsAcceptable}

abbrev film : Movie
film = record { id = 10; title = "a"; available = true }

abbrev other_film : Movie
other_film = record { id = 20; title = "b"; available = true }

abbrev shelf : Catalog
shelf = record { movies = film ∷ other_film ∷ []; popular = 10 ∷ 20 ∷ [] }

shelf_known : All (λ i. (m : Movie) × (movie_of i shelf.movies ≡ some m)) shelf.popular
unfolding movie_of
shelf_known = ((film, refl), ((other_film, refl), tt))

abbrev offered : Recommended
offered = record {
  request_id = "r";
  model_version = "d";
  policy_version = "explicit-v2-popularity";
  preference_revision = 0;
  selection = record {
    items = record { movie = film; source = popularity } ∷ [];
    candidate_source = popularity;
    degraded = false;
    exhausted = false;
  };
}

abbrev base : Tables
base = record {
  users =
      record {
        id = "u";
        created_ms = 0;
        revision = 0;
        consent_version = some "c";
        disabled = false;
      }
      ∷ [];
  identities = record { subject = "g"; user_id = "u"; email = "m" } ∷ [];
  invitations = record { email = "m"; enabled = true } ∷ [];
  sessions =
      record { token_hash = "t"; user_id = "u"; csrf_hash = "x"; created_ms = 5; seen_ms = 5 } ∷ [];
  oauth_flows = [];
  preferences = record { user_id = "u"; item_id = 10; value = dislike } ∷ [];
  item_states = [];
  requests =
      record { user_id = "u"; request_id = "r"; k = 1; created_ms = 10; response = offered } ∷ [];
  events = [];
  mutations = [];
  outbox = [];
  rate_limits = record { key = "k"; window = 0; count = 3 } ∷ [];
}

abbrev plain : Texts
plain = record { hashed = λ s. s; casefold = λ s. s }

abbrev keeping : Ledger
keeping uid entries = (ok tt, uid ∷ entries)

keeping_keeps :
    (es : List String) → (keeping "u" es).0 ≡ ok tt → any (same "u") (keeping "u" es).1 ≡ true
keeping_keeps es h = ground (arith, same_refl "u")

delete_account-IsErased_example :
    let (r, t', entries') = delete_account keeping "u" "o" 20 true base [] in
    ((r ≡ ok tt)
      × IsErased "u" base t'
      × (t'.outbox ≡ deletion_row "o" "u" 20 ∷ base.outbox)
      × IsErased "u" base (replay_deletions entries' base))
    ⊎ ((r ≢ ok tt) × (t' ≡ base) × ((entries' ≡ []) ⊎ ((keeping "u" []).0 ≢ ok tt)))
    ⊎ ((r ≢ ok tt) × (t' ≡ base) × IsErased "u" base (replay_deletions entries' base))
delete_account-IsErased_example =
    delete_account-IsErased keeping "u" "o" 20 true base base [] keeping_keeps

authenticate-maintenance_example :
    (authenticate plain "t" 40 (maintenance 30 base)).0 ≡ (authenticate plain "t" 40 base).0
authenticate-maintenance_example = authenticate-maintenance plain "t" 30 40 base (omega arith)

abbrev calls : List (String × ℕ)
calls = ("k", 1) ∷ ("j", 2) ∷ ("k", 3) ∷ ("k", 59999) ∷ []

passes-min_example :
    passes "k" 5 calls base ≡ min (count (λ c. same c.0 "k") calls) (5 - counted "k" 0 base)
passes-min_example =
    passes-min "k" 5 0 calls base (omega arith, (omega arith, (omega arith, (omega arith, tt))))

abbrev entered : Tables
entered = (login plain "t2" "x2" "f" "g" "m" 50 base).1

logged_in : login plain "t2" "x2" "f" "g" "m" 50 base ≡ (ok tt, entered)
unfolding same login login_session sign_in account_of rotate_session lock_user
logged_in = refl

login-authenticate_example :
    (uid : String) × ((authenticate plain "t2" 60 entered).0
      ≡ ok
          (record { user_id = uid; token_hash = plain.hashed "t2"; csrf_hash = plain.hashed "x2" }))
    × (count (λ s. same s.user_id uid) entered.sessions ≡ 1)
login-authenticate_example =
    login-authenticate plain "t2" "x2" "f" "g" "m" 50 60 base entered logged_in (omega arith)

abbrev secrets : FlowSecrets
secrets = record { state = "s"; browser = "b"; nonce = "n"; verifier = "v" }

abbrev flowing : Tables
flowing = (start_flow plain secrets 50 base).1

started : start_flow plain secrets 50 base ≡ (ok tt, flowing)
unfolding same start_flow
started = refl

start_flow-consume_flow_example :
    let (r, t2) = consume_flow plain "s" "b" 60 flowing in
    (r ≡ ok (flow_row plain secrets 50))
    × (consume_flow plain "s" "b" 70 t2 ≡ (err (http_exception 400 "Invalid or expired login"), t2))
start_flow-consume_flow_example =
    start_flow-consume_flow plain secrets 50 60 70 base flowing started (omega arith)

abbrev site : Service ℕ
site = record {
  catalog = shelf;
  digest = "d";
  policy = popularity;
  policy_version = "explicit-v2-popularity";
  consent_version = "c";
  retrieval = λ attempt uid revision preferences. none;
}

abbrev liking : Preferences
liking = record { request_id = "p"; changes = record { item_id = 10; value = like } ∷ [] }

abbrev changed : Tables
changed = (change_preferences site "u" liking 70 base).1

change_done :
    change_preferences site "u" liking 70 base
    ≡ (ok (record { preference_revision = 1; count = 1 }), changed)
unfolding same change_preferences change_session account lock_user change_found new_rows
    write_preferences movie_of
change_done = refl

change_preferences_repeat_example :
    change_preferences site "u" liking 90 changed
    ≡ (ok (record { preference_revision = 1; count = 1 }), changed)
change_preferences_repeat_example =
    change_preferences_repeat site "u" liking 70 90 base changed
      (record { preference_revision = 1; count = 1 }) change_done

abbrev display : Feedback
display = record {
  event_id = "e";
  request_id = "r";
  item_id = 10;
  kind = shown;
  event_time_ms = 80;
}

abbrev displayed : Tables
displayed = (event site "u" display 100 base).1

event_done : event site "u" display 100 base ≡ (ok false, displayed)
unfolding same event event_session account lock_user event_found check_feedback write_event
    write_outcome
event_done = refl

event_repeat_example : event site "u" display 300 displayed ≡ (ok true, displayed)
event_repeat_example = event_repeat site "u" display 100 300 base displayed false event_done

event-IsAcceptable_example :
    IsAcceptable site "u" display 100 base
    × (displayed.events ≡ record { user_id = "u"; payload = display; created_ms = 100 } ∷ [])
event-IsAcceptable_example = event-IsAcceptable site "u" display 100 base displayed event_done

abbrev asked : Query
asked = record { request_id = "r2"; k = 1 }

abbrev alone : Around
alone = record { commits = λ n t. t; now = λ n. 100 }

-- the film 10 is rated, so the other one is left
abbrev chosen : Recommended
chosen = record {
  request_id = "r2";
  model_version = "d";
  policy_version = "explicit-v2-popularity";
  preference_revision = 0;
  selection = record {
    items = record { movie = other_film; source = popularity } ∷ [];
    candidate_source = popularity;
    degraded = false;
    exhausted = false;
  };
}

abbrev recommended : Tables
recommended = (recommend site alone "u" asked base).1

recommend_done : recommend site alone "u" asked base ≡ (ok chosen, recommended)
unfolding same recommend rate rate_count attempts attempt_once look look_session look_found look_at
    blocked_for account lock_user continue_with answer issue issue_session issue_found select_items
    retrieved replenish add movie_of
recommend_done = refl

recommend-IsStored_example : IsStored site alone "u" asked chosen recommended
recommend-IsStored_example =
    recommend-IsStored site alone "u" asked base recommended chosen recommend_done

abbrev attempted : Tables
attempted = (attempt_once site alone "u" asked 0 base).1

attempt_done : attempt_once site alone "u" asked 0 base ≡ (ok (some chosen), attempted)
unfolding same attempt_once look look_session look_found look_at blocked_for account lock_user
    continue_with answer issue issue_session issue_found select_items retrieved replenish add
    movie_of
attempt_done = refl

unanswered : find_request "u" "r2" base ≡ none
unfolding same
unanswered = refl

attempt_once-IsFresh_example :
    IsFresh site alone "u" asked 0 chosen base base attempted
    × IsSelection shelf (blocked_for "u" base) 1 chosen.selection
    × All (λ p. IsUntouched "u" base p.movie.id) chosen.selection.items
attempt_once-IsFresh_example =
    attempt_once-IsFresh site alone "u" asked 0 base attempted chosen shelf_known unanswered
      unanswered attempt_done

-- a change, from the own site, with the token of the session
abbrev click : WebRequest
click = record {
  names_user = false;
  session = "t";
  is_safe = false;
  origin = some "o";
  csrf_token = "x";
}

abbrev caller : Principal
caller = record { user_id = "u"; token_hash = "t"; csrf_hash = "x" }

abbrev clicked : Tables
clicked = (principal plain "o" click 30 base).1

admitted : principal plain "o" click 30 base ≡ (ok caller, clicked)
unfolding same principal authenticate guard count_mutation rate rate_count
admitted = refl

logout-authenticate_example :
    (authenticate plain "t" 31 (logout caller clicked)).0
    ≡ err (http_exception 401 "Authentication required")
logout-authenticate_example = logout-authenticate plain "o" click 30 31 base clicked caller admitted
