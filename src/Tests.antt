-- ===== src/Tests.antt =====
-- A small pilot and a small service on which the theorems are run: two films, one user, one request.
mod Pilot
mod Models
mod Clients
mod Accounts
mod Agent
mod Bundles
mod Network
mod Erasure
use recserve.Prelude.{ℕ, ◌+◌, ◌-◌, ◌*◌, ◌/◌, String, Option, none, some, List, [], ◌∷◌, ltb, false}
use recserve.Prelude.Int.{pos}
use recserve.Exec.{Result, ok, err}
use recserve.Wire.{Fault, timeout}
use recserve.Pilot.Payload.{Payload, object, Value, int, text, Event, Kind, shown}
use recserve.Pilot.Tables.{Response, Db, cpp_retrieval}
use recserve.Pilot.Store.{fresh, Snapshot, snapshot}
use recserve.Pilot.Store.Publishing.{with_response}
use recserve.Pilot.Apply.{event_row}
use recserve.Pilot.Model.{Floats, Model}
use recserve.Pilot.Service.{Request, World}

-- numbers in place of floats
abbrev pub numbers : Floats ℕ
numbers = record {
  less = ltb;
  add = λ a b. a + b;
  sub = λ a b. a - b;
  mul = λ a b. a * b;
  div = λ a b. a / b;
  of_ℕ = λ n. n;
}

abbrev pub films : Model
films = record {
  fingerprint = "f";
  version = "v";
  users = ("u", 0) ∷ [];
  items = "a" ∷ "b" ∷ [];
  seen = ("u", "b") ∷ [];
  popular = "b" ∷ "a" ∷ [];
}

abbrev pub ask : Payload
ask = object (("request_id", text "r") ∷ ("user_id", text "u") ∷ ("k", int (pos 1)) ∷ [])

abbrev pub question : Request
question = record { request_id = "r"; user_id = "u"; k = 1 }

-- an upstream that ranks both films, and no other client
abbrev pub quiet : World ℕ
quiet = record {
  retrieve = λ attempt row count. ok (("a", 5) ∷ ("b", 4) ∷ []);
  commits = λ n db. db;
  now = λ attempt. 7;
}

-- an upstream that is down
abbrev pub silent : World ℕ
silent = record {
  retrieve = λ attempt row count. err timeout;
  commits = λ n db. db;
  now = λ attempt. 9;
}

abbrev pub empty : Db ℕ
empty = fresh "f"

abbrev pub issued : Response ℕ
issued = record {
  request_id = "r";
  user_id = "u";
  model_version = "v";
  model_sha256 = "f";
  policy_version = "eligible-save-rate-v1";
  feature_generation = 0;
  candidate_source = cpp_retrieval;
  degraded = false;
  last_feedback_commit_ms = none;
  items = ("a", 5) ∷ [];
  exhausted = false;
}

abbrev pub served : Db ℕ
served = with_response issued 1 7 (("r", "a") ∷ []) empty

-- the film was shown, and the acknowledgement arrives at the time 100
abbrev pub seen_it : Payload
seen_it = object (
    ("schema_version", int (pos 1))
    ∷ ("event_id", text "e")
    ∷ ("event_time_ms", int (pos 50))
    ∷ ("user_id", text "u")
    ∷ ("item_id", text "a")
    ∷ ("kind", text "shown")
    ∷ ("request_id", text "r")
    ∷ [])

abbrev pub shown_event : Event
shown_event = record {
  event_id = "e";
  event_time_ms = pos 50;
  user_id = "u";
  item_id = "a";
  kind = shown;
  request_id = "r";
}

abbrev pub acted : Db ℕ
acted = record served {
  events = event_row shown_event 100 served ∷ [];
  last_sequence = 1;
  generation = 1;
  item_features = record { item_id = "a"; shown = 1; saved = 0 } ∷ [];
}
