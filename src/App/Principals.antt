-- ===== src/App/Principals.antt =====
-- Who calls, and the end of a session: `principal` and `logout` of recserve_app/api.py.
pub mod Logout
use Prim.Native.String.{◌++◌ as join}
use recserve.Prelude.{String, Bool, false, not, Option, none, some, same, keep, ℕ, if◌then◌else◌}
use recserve.Exec.{Result, ok, err, ◌>>=◌}
use recserve.App.Schema.{Failure, http_exception, Tables}
use recserve.App.Accounts.{ActionOn, Texts, Principal, authenticate, rate}

-- What `principal` reads of a request: whether its query names a user, its session cookie, whether
-- its method is GET, HEAD or OPTIONS, and its origin and CSRF token.
pub record WebRequest : Type 0 where
  pub names_user : Bool
  pub session : String
  pub is_safe : Bool
  pub origin : Option String
  pub csrf_token : String

is_same_origin : String → Option String → Bool
is_same_origin own none = false
is_same_origin own (some origin) = same origin own

-- the rate limit of changes
unfoldable pub count_mutation : ℕ → Principal → ActionOn Principal
count_mutation stamp actor = rate (join "mutation:" actor.user_id) 60 stamp >>= λ _ s. (ok actor, s)

module _ (x : Texts) (own_origin : String) where
  -- the checks of a request that may change something
  unfoldable pub guard : WebRequest → ℕ → Principal → ActionOn Principal
  unfolding is_same_origin
  guard r stamp actor t =
      let counted = count_mutation stamp actor t in
      if r.is_safe
      then (ok actor, t)
      else if not (is_same_origin own_origin r.origin)
      then (err (http_exception 403 "Same-origin request required"), t)
      else if not (same (x.hashed r.csrf_token) actor.csrf_hash)
      then (err (http_exception 403 "Invalid CSRF token"), t)
      else counted

  -- `principal` at the time `stamp`
  unfoldable pub principal : WebRequest → ℕ → ActionOn Principal
  principal r stamp t =
      let known = (authenticate x r.session stamp >>= guard r stamp) t in
      if r.names_user
      then (err (http_exception 422 "Identity is derived from the session"), t)
      else known

-- the transaction of `logout`
unfoldable pub logout : Principal → Tables → Tables
logout actor t = record t {
  sessions = keep (λ s. not (same s.token_hash actor.token_hash)) t.sessions;
}
