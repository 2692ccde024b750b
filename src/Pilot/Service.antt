-- ===== src/Pilot/Service.antt =====
-- The recommendation loop: `class Pilot` of recserve_pilot/service.py. Retrieval, the clock and
-- what other clients commit meanwhile are parameters.
pub mod Rounds
pub mod Candidates
pub mod Answer
pub mod Fresh
pub mod Once
use text.Mathlib.Text.{starts_with}
use recserve.Prelude.{
  ℕ, zero, suc, ◌+◌, ◌*◌, min, max, String, Bool, true, false, ◌&&◌, ◌||◌, not, Option, none, some,
  List, [], ◌∷◌, length, take, keep, map, any, has_key, put, ltb, leb, same, if◌then◌else◌,
}
use recserve.Prelude.Int.{ℤ, pos, negsuc}
use recserve.Exec.{Result, ok, err}
use recserve.Wire.{Fault}
use recserve.Pilot.Payload.{
  Payload, object, not_object, Value, int, Error, invalid, changed, crashed, Checked, ◌>>=◌, ◌>>◌,
  require, identifier, field, has_keys,
}
use recserve.Pilot.Tables.{
  Source, popularity_cold_start, cpp_retrieval, popularity_upstream_unavailable,
  cpp_retrieval_with_popularity_fill, Response, Db,
}
use recserve.Pilot.Store.{Snapshot, snapshot, existing, publish}
use recserve.Pilot.Model.{Floats, Model, rank}

pub record Request : Type 0 where
  pub request_id : String
  pub user_id : String
  pub k : ℕ

-- the JSON value `k`, an integer in [1, 50]
unfoldable pub size_of : Value → Checked ℕ
size_of (int (pos n)) =
    if leb 1 n && leb n 50 then ok n else err (invalid "k must be an integer in [1,50]")
size_of _ = err (invalid "k must be an integer in [1,50]")

abbrev pub request_keys : List String
request_keys = "request_id" ∷ "user_id" ∷ "k" ∷ []

-- The checks of `Pilot.recommend` before it looks into the store.
unfoldable pub parse_request : Model → Payload → Checked Request
parse_request m not_object = err (invalid "recommend expects request_id, user_id and k")
parse_request m (object fields) = do
  require (has_keys request_keys fields) (invalid "recommend expects request_id, user_id and k")
  request_id ← identifier (field "request_id" fields)
  user ← identifier (field "user_id" fields)
  k ← size_of (field "k" fields)
  require (has_key user m.users || starts_with user "guest:")
      (invalid "unknown model identity; use a distinct guest: ID for cold start")
  ok (record { request_id = request_id; user_id = user; k = k })

-- What the call meets outside: the replies to its queries, by attempt, row and count; what other
-- clients commit at each moment between its transactions; and the time of each publication.
pub record World (F : Type 0) : Type 0 where
  pub retrieve : ℕ → ℕ → ℕ → Result Fault (List (String × F))
  pub commits : ℕ → Db F → Db F
  pub now : ℕ → ℕ

pub record Gathered (F : Type 0) : Type 0 where
  pub candidates : List (String × F)
  pub source : Source
  pub ranked : List (String × F)

-- `self.model.users[user]`
unfoldable pub row_of : String → List (String × ℕ) → Option ℕ
row_of user [] = none
row_of user ((u, row) ∷ users) = if same u user then some row else row_of user users

-- `self.model.seen.get(user, set())`
unfoldable pub seen_by : String → List (String × String) → List String
seen_by user seen = map (λ p. p.1) (keep (λ p. same p.0 user) seen)

module _ {F : Type 0} (num : Floats F) (m : Model) where
  open num use {less, sub, div, of_ℕ}

  -- `candidates.update(...)`
  unfoldable pub update : List (String × F) → List (String × F) → List (String × F)
  update candidates [] = candidates
  update candidates ((item, score) ∷ more) = update (put item score candidates) more

  -- Python's `min` over the values, with a default
  least : F → List (String × F) → F
  least found [] = found
  least found ((_, v) ∷ rest) = least (if less v found then v else found) rest

  floor_of : List (String × F) → F
  unfolding least
  floor_of [] = sub (of_ℕ 0) (of_ℕ 1)
  floor_of ((_, v) ∷ rest) = sub (least v rest) (of_ℕ 1)

  -- `candidates.setdefault(item, floor - position / max(1, len(items)))` for the items of `popular`
  unfoldable pub fill_from : F → ℕ → List String → List (String × F) → List (String × F)
  fill_from floor position [] candidates = candidates
  fill_from floor position (item ∷ popular) candidates = fill_from floor (suc position) popular (
      if has_key item candidates
      then candidates
      else put item (sub floor (div (of_ℕ position) (of_ℕ (max 1 (length m.items))))) candidates)

  unfoldable pub fill : List (String × F) → List (String × F)
  unfolding floor_of
  fill candidates = fill_from (floor_of candidates) 0 m.popular candidates

  -- the `while` loop over growing counts; `none` is the end of the fuel
  unfoldable pub gather :
      (ℕ → Result Fault (List (String × F)))
      → List String
      → Snapshot
      → ℕ
      → ℕ
      → ℕ
      → Gathered F
      → Option (Gathered F)
  gather retrieve seen snap k zero count g = none
  gather retrieve seen snap k (suc fuel) count g = elim (retrieve count) [
    | err _ ↦ some (record g { candidates = []; source = popularity_upstream_unavailable })
    | ok more ↦
        let candidates = update g.candidates more in
        let ranked = rank num candidates seen snap m.items in
        let g' : Gathered F = record {
          candidates = candidates;
          source = cpp_retrieval;
          ranked = ranked;
        } in
        let rest =
          gather retrieve seen snap k fuel (min (min (count * 2) 512) (length m.items)) g' in
        if leb k (length ranked) || leb (min 512 (length m.items)) count then some g' else rest
  ]

  -- a cold start has no row, and asks nothing
  unfoldable pub gather_for :
      (ℕ → ℕ → Result Fault (List (String × F))) → Request → Snapshot → Option (Gathered F)
  gather_for retrieve q snap =
      let start : Gathered F = record {
        candidates = [];
        source = popularity_cold_start;
        ranked = [];
      } in
      elim (row_of q.user_id m.users) [
        | none ↦ some start
        | some row ↦
            gather (retrieve row) (seen_by q.user_id m.seen) snap q.k 4 (min 64 (length m.items))
              start
      ]

  filled_source : Source → Source
  filled_source cpp_retrieval = cpp_retrieval_with_popularity_fill
  filled_source s = s

  -- the popularity fill, when the ranking is too short
  unfoldable pub complete : Request → Snapshot → Gathered F → Gathered F
  unfolding fill filled_source
  complete q snap g =
      if ltb (length g.ranked) q.k
      then (let candidates = fill g.candidates in
          record {
            candidates = candidates;
            source = filled_source g.source;
            ranked = rank num candidates (seen_by q.user_id m.seen) snap m.items;
          })
      else g

  is_unavailable : Source → Bool
  is_unavailable popularity_upstream_unavailable = true
  is_unavailable _ = false

  unfoldable pub response_of : Request → Snapshot → Gathered F → Response F
  unfolding is_unavailable
  response_of q snap g = record {
    request_id = q.request_id;
    user_id = q.user_id;
    model_version = m.version;
    model_sha256 = m.fingerprint;
    policy_version = "eligible-save-rate-v1";
    feature_generation = snap.generation;
    candidate_source = g.source;
    degraded = is_unavailable g.source;
    last_feedback_commit_ms = snap.last_committed_ms;
    items = take q.k g.ranked;
    exhausted = ltb (length g.ranked) q.k;
  }

  -- One attempt, without its publication; `none` is the end of the fuel.
  unfoldable pub respond :
      (ℕ → ℕ → Result Fault (List (String × F))) → Request → Snapshot → Option (Response F)
  respond retrieve q snap = elim (gather_for retrieve q snap) [
    | none ↦ none
    | some g ↦ some (response_of q snap (complete q snap g))
  ]

  -- `except Changed: continue`; `rest` is what the later attempts give
  unfoldable pub retry :
      Result Error (Response F)
      → Db F
      → Result Error (Response F) × Db F
      → Result Error (Response F) × Db F
  retry (ok issued) after rest = (ok issued, after)
  retry (err changed) after rest = rest
  retry (err other) after rest = (err other, after)

  module _ (w : World F) (q : Request) where
    unfoldable pub publish_at : ℕ → Option (Response F) → Db F → Result Error (Response F) × Db F
    publish_at attempt none db = (err crashed, db)
    publish_at attempt (some response) db = publish response q.k (w.now attempt) db

    -- `for _ in range(3)`, with `left` attempts to go; only `Changed` leads to another one
    unfoldable pub attempts : ℕ → ℕ → Db F → Result Error (Response F) × Db F
    attempts zero attempt db = (err changed, db)
    attempts (suc left) attempt db =
        let before = w.commits (attempt * 2) db in
        let response = respond (w.retrieve attempt) q (snapshot q.user_id before) in
        let (r, after) = publish_at attempt response (w.commits (attempt * 2 + 1) before) in
        let rest = attempts left (suc attempt) after in retry r after rest

    unfoldable pub after_existing :
        Checked (Option (Response F)) → Db F → Result Error (Response F) × Db F
    after_existing (err x) db = (err x, db)
    after_existing (ok (some old)) db = (ok old, db)
    after_existing (ok none) db = attempts 3 0 db

  -- `Pilot.recommend`
  unfoldable pub recommend : World F → Payload → Db F → Result Error (Response F) × Db F
  recommend w payload db = elim (parse_request m payload) [
    | err x ↦ (err x, db)
    | ok q ↦ after_existing w q (existing q.request_id q.user_id q.k db) db
  ]
