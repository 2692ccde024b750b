-- ===== src/Pilot/Http.antt =====
-- The HTTP front of the pilot: `Handler`, `Server` and the ports of `main` in recserve_pilot/service.py. The
-- request line and the headers come parsed, and `int` and `json.loads` are parameters.
pub mod Atomic
use recserve.Prelude.{
  ℕ, zero, suc, ◌+◌, String, Bool, true, false, ◌&&◌, ◌||◌, not, Option, none, some, List, [], ◌∷◌,
  any, take, length, ltb, leb, ◌==◌, same, if◌then◌else◌,
}
use recserve.Prelude.Int.{ℤ, pos}
use recserve.Exec.{Result, ok, err}
use recserve.Pilot.Payload.{Payload, Error, invalid, conflict, changed, integrity, crashed}
use recserve.Pilot.Tables.{Response, Db}
use recserve.Pilot.Model.{Floats, Model}
use recserve.Pilot.Store.{snapshot}
use recserve.Pilot.Apply.{Receipt, CrashPoint, apply}
use recserve.Pilot.Service.{World, recommend}

-- What the handler reads of a request. `body` is what arrives of it before the peer closes or the end of
-- the time; `none` is a read that raises a TimeoutError or an OSError.
pub record Request : Type 0 where
  pub host : Option String
  pub origin : Option String
  pub path : String
  pub content_lengths : List String
  pub transfer_encoding : Option String
  pub content_type : Option String
  pub body : Option (List ℕ)

pub data Content (F : Type 0) : Type 0 where
  failure : Content F
  health : ℕ → Content F
  recommendation : Response F → Content F
  receipt : Receipt → Content F

-- `dropped` is a connection that is closed without an answer
pub data Reply (F : Type 0) : Type 0 where
  answered : ℕ → Content F → Reply F
  dropped : Reply F

-- the truth of a header
abbrev pub is_set : Option String → Bool
is_set none = false
is_set (some s) = not (same s "")

abbrev pub is_value : Option String → String → Bool
is_value none s = false
is_value (some t) s = same t s

-- `allowed`, with the names of the host at the server's port
unfoldable pub allowed : List String → Request → Bool
allowed hosts r = any (is_value r.host) hosts && not (is_set r.origin)

-- the exceptions that `do_POST` answers; a process that ends answers nothing
unfoldable pub refusal : {F : Type 0} → Error → Reply F
refusal (conflict _) = answered 409 failure
refusal (invalid _) = answered 400 failure
refusal changed = answered 503 failure
refusal integrity = answered 503 failure
refusal crashed = dropped

-- whether a length is in 1..8192
abbrev pub is_length : ℤ → Bool
is_length (pos n) = leb 1 n && leb n 8192
is_length _ = false

-- a body read and decoded, or the reply that refuses it
pub data Decoded : Type 0 where
  rejected unreadable : Decoded
  decoded : Payload → Decoded

-- `self.rfile.read(length)` and `json.loads`
unfoldable pub read_payload : (List ℕ → Option Payload) → ℕ → Option (List ℕ) → Decoded
read_payload loads n none = unreadable
read_payload loads n (some arrived) =
    if length (take n arrived) == n
    then elim (loads (take n arrived)) [ none ↦ rejected | some payload ↦ decoded payload ]
    else rejected

-- the checks of the headers and the body
unfoldable pub decode_body : (String → Option ℤ) → (List ℕ → Option Payload) → Request → Decoded
decode_body int_of loads r = elim r.content_lengths [
  | [] ↦ rejected
  | text ∷ more ↦
      if ltb 0 (length more) || is_set r.transfer_encoding then rejected else elim (int_of text) [
        | none ↦ rejected
        | some size ↦
            if is_length size && is_value r.content_type "application/json"
            then elim size [ pos n ↦ read_payload loads n r.body | _ ↦ rejected ]
            else rejected
      ]
]

module _ {F : Type 0} where
  -- `do_GET`; `none` is a database that raises
  unfoldable pub do_get : List String → Request → Option (Db F) → Reply F
  do_get hosts r db =
      if not (allowed hosts r)
      then answered 403 failure
      else if not (same r.path "/healthz")
      then answered 404 failure
      else elim db [
        | none ↦ answered 503 failure
        | some d ↦ answered 200 (health (snapshot "" d).generation)
      ]

  unfoldable pub answer_event : Result Error Receipt × Db F → Reply F × Db F
  answer_event (ok given, db) = (answered 200 (receipt given), db)
  answer_event (err x, db) = (refusal x, db)

  unfoldable pub answer_recommendation : Result Error (Response F) × Db F → Reply F × Db F
  answer_recommendation (ok response, db) = (answered 200 (recommendation response), db)
  answer_recommendation (err x, db) = (refusal x, db)

  -- `reply`: an answer that cannot be written closes the connection, after what was committed
  abbrev pub sent : Bool → Reply F → Reply F
  sent is_connected reply = if is_connected then reply else dropped

-- what a request meets outside: the sources of the recommendation loop, the time of an event, and whether the
-- connection still takes the answer
pub record Surroundings (F : Type 0) : Type 0 where
  pub int_of : String → Option ℤ
  pub loads : List ℕ → Option Payload
  pub world : World F
  pub stamp : ℕ
  pub is_connected : Bool

module _ {F : Type 0} (num : Floats F) (m : Model) (hosts : List String) where
  unfoldable pub handle_payload : Surroundings F → String → Payload → Db F → Reply F × Db F
  handle_payload around path payload db =
      if same path "/v1/recommend"
      then answer_recommendation (recommend num m around.world payload db)
      else answer_event (apply payload none around.stamp db)

  -- `do_POST` up to its answer
  unfoldable pub process_post : Surroundings F → Request → Db F → Reply F × Db F
  process_post around r db =
      if not (allowed hosts r)
      then (answered 403 failure, db)
      else if not (same r.path "/v1/recommend" || same r.path "/v1/events")
      then (answered 404 failure, db)
      else elim (decode_body around.int_of around.loads r) [
        | rejected ↦ (answered 400 failure, db)
        | unreadable ↦ (dropped, db)
        | decoded payload ↦ handle_payload around r.path payload db
      ]

  -- `do_POST`
  unfoldable pub do_post : Surroundings F → Request → Db F → Reply F × Db F
  do_post around r db =
      let (reply, db') = process_post around r db in (sent around.is_connected reply, db')

-- The slots of `Server`: those that are free, and the requests that are served.
pub record Slots : Type 0 where
  pub free : ℕ
  pub serving : ℕ

abbrev pub all_free : Slots
all_free = record { free = 8; serving = 0 }

-- `process_request`; `starts` says whether the thread of the request starts
unfoldable pub process_request : Bool → Slots → Slots
process_request starts s = elim s.free [
  | zero ↦ s
  | suc free ↦ if starts then record { free = free; serving = suc s.serving } else s
]

-- the end of `process_request_thread`
unfoldable pub release : Slots → Slots
release s = elim s.serving [
  | zero ↦ s
  | suc serving ↦ record { free = suc s.free; serving = serving }
]

-- the test of the ports in `main`
unfoldable pub are_ports : ℕ → ℕ → Bool
are_ports port upstream_port =
    leb 1 port
    && leb port 65535
    && (leb 1 upstream_port && leb upstream_port 65535)
    && not (port == upstream_port)
