-- ===== src/App/Telemetry.antt =====
-- The labels and counts of requests and failures: recserve_app/telemetry.py. Latencies and the text of a
-- log line are left out.
use text.Mathlib.Text.{starts_with}
use recserve.Prelude.{
  ℕ, suc, ◌-◌, String, Bool, ◌||◌, Option, none, some, List, [], ◌∷◌, any, same, if◌then◌else◌,
}

-- what a handler sees of an error of the database: a timeout of the pool, an error of the driver with its
-- SQLSTATE and whether it has invalidated the connection, or another error
pub data DatabaseFailure : Type 0 where
  pool_timeout other : DatabaseFailure
  driver : Option String → Bool → DatabaseFailure

abbrev lost_connection : Option String → Bool → Bool
lost_connection none invalidated = invalidated
lost_connection (some state) invalidated = invalidated || starts_with state "08"

abbrev driver_reason : Option String → Bool → String
driver_reason none invalidated = if invalidated then "connection" else "other"
driver_reason (some state) invalidated =
    if same state "55P03"
    then "lock_timeout"
    else if same state "57014"
    then "query_cancelled"
    else if same state "40001"
    then "serialization"
    else if same state "40P01"
    then "deadlock"
    else if lost_connection (some state) invalidated
    then "connection"
    else "other"

-- `database_failure_reason`
unfoldable pub database_failure_reason : DatabaseFailure → String
database_failure_reason pool_timeout = "pool_timeout"
database_failure_reason other = "other"
database_failure_reason (driver state invalidated) = driver_reason state invalidated

-- a request to the application: the route that it matched, its method, and the status that was sent
pub record Exchange : Type 0 where
  pub route : Option String
  pub method : String
  pub status : Option ℕ

pub record Count : Type 0 where
  pub route : String
  pub method : String
  pub status : ℕ

pub record Metrics : Type 0 where
  pub active : ℕ
  pub requests : List Count
  pub logged : List Count

abbrev pub methods : List String
methods = "GET" ∷ "POST" ∷ "PUT" ∷ "DELETE" ∷ "HEAD" ∷ "OPTIONS" ∷ []

abbrev pub probes : List String
probes = "/healthz" ∷ "/readyz" ∷ "/internal/metrics" ∷ []

-- what is counted of a request; without a status it is an error of the server
unfoldable pub count_of : Exchange → Count
count_of e = record {
  route = elim e.route [ none ↦ "unmatched" | some route ↦ route ];
  method = if any (same e.method) methods then e.method else "OTHER";
  status = elim e.status [ none ↦ 500 | some status ↦ status ];
}

-- the start of a request
unfoldable pub begin : Metrics → Metrics
begin m = record m { active = suc m.active }

-- its end, also after an exception
unfoldable pub complete : Exchange → Metrics → Metrics
complete e m =
    let c = count_of e in
    record {
      active = m.active - 1;
      requests = c ∷ m.requests;
      logged = if any (same c.route) probes then m.logged else c ∷ m.logged;
    }
