-- ===== src/App/Recommend.antt =====
-- `Policy.recommend` of recserve_app/policy.py. The clock, the retrieval and what other clients
-- commit between the transactions are parameters.
pub mod Stored
pub mod Fresh
use Prim.Native.String.{◌++◌ as join}
use recserve.Prelude.{
  ℕ, zero, suc, ◌+◌, ◌*◌, String, Bool, true, false, ◌&&◌, ◌||◌, not, Option, none, some, List, [],
  ◌∷◌, ◌++◌, keep, map, leb, ◌==◌, same, if◌then◌else◌,
}
use recserve.Exec.{Result, ok, err, atomically, ◌>>=◌}
use recserve.App.Selection.{Selection, select_items}
use recserve.App.Schema.{
  Failure, http_exception, uncaught, UserRow, Taste, ItemState, Recommended, RequestRow, Tables,
}
use recserve.App.Accounts.{ActionOn, day_ms, rate}
use recserve.App.Policy.{Service, account, find_request}

pub record Query : Type 0 where
  pub request_id : String
  pub k : ℕ

-- What other clients commit before each transaction, and the clock at each.
pub record Around : Type 0 where
  pub commits : ℕ → Tables → Tables
  pub now : ℕ → ℕ

-- what the first transaction of an attempt reads
pub record Look : Type 0 where
  pub preferences : List (ℕ × Taste)
  pub blocked : List ℕ
  pub revision : ℕ

pub data Found : Type 0 where
  answered : Recommended → Found
  open_for : Look → Found

preferences_of : String → Tables → List (ℕ × Taste)
preferences_of uid t =
    map (λ r. (r.item_id, r.value)) (keep (λ r. same r.user_id uid) t.preferences)

is_marked : String → ItemState → Bool
is_marked uid s = same s.user_id uid && (s.saved || (s.watched || s.dismissed))

-- the preferences and the items that are saved, watched or dismissed
unfoldable pub blocked_for : String → Tables → List ℕ
unfolding preferences_of is_marked
blocked_for uid t =
    map (λ p. p.0) (preferences_of uid t)
    ++ map (λ s. s.item_id) (keep (is_marked uid) t.item_states)

unfoldable pub look_at : String → UserRow → Tables → Look
unfolding preferences_of
look_at uid user t = record {
  preferences = preferences_of uid t;
  blocked = blocked_for uid t;
  revision = user.revision;
}

module _ {F : Type 0} (service : Service F) (w : Around) (uid : String) (q : Query) where
  unfoldable pub look_found : ℕ → UserRow → Option RequestRow → ActionOn Found
  look_found stamp user (some old) t = (
    if not (old.k == q.k) || leb (old.created_ms + day_ms) stamp
        then err (http_exception 409 "Request key conflicts or has expired; use a new key")
        else ok (answered old.response),
    t,
  )
  look_found stamp user none t = (ok (open_for (look_at uid user t)), t)

  unfoldable pub look_session : ℕ → ActionOn Found
  look_session stamp =
      account service uid >>= λ user t. look_found stamp user (find_request uid q.request_id t) t

  -- the first transaction of an attempt
  unfoldable pub look : ℕ → ActionOn Found
  look stamp = atomically (look_session stamp)

  -- the response over what was read; an exception of the selection is not handled
  unfoldable pub answer : ℕ → Look → Result Failure Recommended
  answer attempt l =
      elim (select_items service.catalog (service.retrieval attempt uid l.revision l.preferences)
        l.blocked q.k service.policy) [
          | err _ ↦ err uncaught
          | ok selection ↦ ok (record {
            request_id = q.request_id;
            model_version = service.digest;
            policy_version = service.policy_version;
            preference_revision = l.revision;
            selection = selection;
          })
        ]

  abbrev pub request_row : Recommended → ℕ → RequestRow
  request_row response stamp = record {
    user_id = uid;
    request_id = q.request_id;
    k = q.k;
    created_ms = stamp;
    response = response;
  }

  -- `none` stands for `continue`
  unfoldable pub issue_found :
      ℕ → Recommended → UserRow → Option RequestRow → ActionOn (Option Recommended)
  issue_found stamp response user (some old) t = (
    if not (old.k == q.k)
        then err (http_exception 409 "Request key conflict")
        else ok (some old.response),
    t,
  )
  issue_found stamp response user none t =
      if not (user.revision == response.preference_revision)
      then (ok none, t)
      else (ok (some response), record t { requests = request_row response stamp ∷ t.requests })

  unfoldable pub issue_session : ℕ → Recommended → ActionOn (Option Recommended)
  issue_session stamp response = account service uid >>= λ user t.
      issue_found stamp response user (find_request uid q.request_id t) t

  -- the second transaction of an attempt
  unfoldable pub issue : ℕ → Recommended → ActionOn (Option Recommended)
  issue stamp response = atomically (issue_session stamp response)

  unfoldable pub continue_with : ℕ → Found → ActionOn (Option Recommended)
  continue_with attempt (answered response) t = (ok (some response), t)
  continue_with attempt (open_for l) t = elim (answer attempt l) [
    | err x ↦ (err x, t)
    | ok response ↦ issue (w.now (attempt * 2 + 1)) response (w.commits (attempt * 2 + 1) t)
  ]

  unfoldable pub attempt_once : ℕ → ActionOn (Option Recommended)
  attempt_once attempt t =
      (look (w.now (attempt * 2)) >>= continue_with attempt) (w.commits (attempt * 2) t)

  -- `for attempt in range(3)`, with `left` attempts to go
  unfoldable pub attempts : ℕ → ℕ → ActionOn Recommended
  attempts zero attempt t =
      (err (http_exception 503 "Preferences changed repeatedly; retry with a new request ID"), t)
  attempts (suc left) attempt t =
      let (r, t') = attempt_once attempt t in
      let rest = attempts left (suc attempt) t' in
      elim r [ err x ↦ (err x, t') | ok none ↦ rest | ok (some response) ↦ (ok response, t') ]

  -- `Policy.recommend`
  unfoldable pub recommend : ActionOn Recommended
  recommend = rate (join "recommend:" uid) 20 (w.now 0) >>= λ _. attempts 3 0
