-- ===== src/App/Recommend/Stored.antt =====
-- The stored row of a recommendation that is returned (recserve_app/policy.py).
use Prim.Native.String.{◌++◌ as join}
use recserve.Prelude.{
  ℕ, zero, suc, ◌+◌, ◌*◌, ◌≡◌, refl, String, ◌||◌, not, Option, none, some, ◌∷◌, same_refl, leb,
  ◌==◌, arith, Bool-cases, Option-cases, inl, inr,
}
use recserve.Exec.{ok, Result-cases, atomically-ok, bind-ok}
use recserve.App.Schema.{UserRow, Recommended, RequestRow, Tables}
use recserve.App.Accounts.{ActionOn, day_ms, rate}
use recserve.App.Policy.{Service, account, find_request}
use recserve.App.Recommend.{
  Query, Around, Found, answered, open_for, look_found, look_session, look, answer, request_row,
  issue_found, issue_session, issue, continue_with, attempt_once, attempts, recommend,
}

module _ {F : Type 0} (service : Service F) (w : Around) (uid : String) (q : Query) where
  -- the response is stored for the request
  abbrev pub IsStored : Recommended → Tables → Type 0
  IsStored r t =
      (row : RequestRow) × (find_request uid q.request_id t ≡ some row)
      × (row.k ≡ q.k)
      × (row.response ≡ r)

  look_found-IsStored :
      (stamp : ℕ) (user : UserRow) (old : Option RequestRow) (t t' : Tables) (r : Recommended)
      → find_request uid q.request_id t ≡ old
      → look_found service w uid q stamp user old t ≡ (ok (answered r), t')
      → IsStored r t'
  unfolding look_found
  look_found-IsStored stamp user none t t' r found e = ground arith
  look_found-IsStored stamp user (some old) t t' r found e =
      elim (Bool-cases (not (old.k == q.k) || leb (old.created_ms + day_ms) stamp)) [
        | inl refused ↦ ground arith
        | inr kept ↦
            let same_tables : t ≡ t' = ground arith in
            (old, rw (← same_tables) found, ground arith, ground arith)
      ]

  look-IsStored :
      (stamp : ℕ) (t t' : Tables) (r : Recommended)
      → look service w uid q stamp t ≡ (ok (answered r), t')
      → IsStored r t'
  unfolding look look_session
  look-IsStored stamp t t' r e =
      let f : UserRow → ActionOn Found =
        (λ u s. look_found service w uid q stamp u (find_request uid q.request_id s) s) in
      let (user, t1, known, rest) =
        bind-ok (account service uid) f t t' (answered r)
          (atomically-ok (look_session service w uid q stamp) t t' (answered r) e) in
      look_found-IsStored stamp user (find_request uid q.request_id t1) t1 t' r refl rest

  issue_found-IsStored :
      (stamp : ℕ) (response r : Recommended) (user : UserRow) (old : Option RequestRow)
      (t t' : Tables)
      → find_request uid q.request_id t ≡ old
      → issue_found service w uid q stamp response user old t ≡ (ok (some r), t')
      → IsStored r t'
  unfolding issue_found
  issue_found-IsStored stamp response r user (some old) t t' found e =
      let same_tables : t ≡ t' = ground arith in
      (old, rw (← same_tables) found, ground arith, ground arith)
  issue_found-IsStored stamp response r user none t t' found e =
      elim (Bool-cases (not (user.revision == response.preference_revision))) [
        | inl changed ↦ ground arith
        | inr kept ↦
            let row = request_row service w uid q response stamp in
            let written : record t { requests = row ∷ t.requests } ≡ t' = ground arith in
            (
              row,
              rw (← written) (rw (same_refl uid, same_refl q.request_id) refl),
              refl,
              ground arith,
            )
      ]

  issue-IsStored :
      (stamp : ℕ) (response r : Recommended) (t t' : Tables)
      → issue service w uid q stamp response t ≡ (ok (some r), t')
      → IsStored r t'
  unfolding issue issue_session
  issue-IsStored stamp response r t t' e =
      let f : UserRow → ActionOn (Option Recommended) =
        (λ u s. issue_found service w uid q stamp response u (find_request uid q.request_id s) s) in
      let (user, t1, known, rest) =
        bind-ok (account service uid) f t t' (some r)
          (atomically-ok (issue_session service w uid q stamp response) t t' (some r) e) in
      issue_found-IsStored stamp response r user (find_request uid q.request_id t1) t1 t' refl rest

  continue_with-IsStored :
      (attempt : ℕ) (found : Found) (t0 t t' : Tables) (r : Recommended)
      → look service w uid q (w.now (attempt * 2)) t0 ≡ (ok found, t)
      → continue_with service w uid q attempt found t ≡ (ok (some r), t')
      → IsStored r t'
  unfolding continue_with
  continue_with-IsStored attempt (answered response) t0 t t' r looked e =
      let same_response : response ≡ r = ground arith in
      let same_tables : t ≡ t' = ground arith in
      look-IsStored (w.now (attempt * 2)) t0 t' r (cc (looked, same_response, same_tables))
  continue_with-IsStored attempt (open_for l) t0 t t' r looked e =
      elim (Result-cases (answer service w uid q attempt l)) [
        | inr (x, failed) ↦ ground arith
        | inl (response, made) ↦
            issue-IsStored (w.now (attempt * 2 + 1)) response r (w.commits (attempt * 2 + 1) t) t'
              (rw (made, continue_with) at e)
      ]

  attempt_once-IsStored :
      (attempt : ℕ) (t t' : Tables) (r : Recommended)
      → attempt_once service w uid q attempt t ≡ (ok (some r), t')
      → IsStored r t'
  unfolding attempt_once
  attempt_once-IsStored attempt t t' r e =
      let t0 = w.commits (attempt * 2) t in
      let (found, t1, looked, rest) =
        bind-ok (look service w uid q (w.now (attempt * 2))) (continue_with service w uid q attempt)
          t0 t' (some r) e in
      continue_with-IsStored attempt found t0 t1 t' r looked rest

  attempts-IsStored :
      (left attempt : ℕ) (t t' : Tables) (r : Recommended)
      → attempts service w uid q left attempt t ≡ (ok r, t')
      → IsStored r t'
  unfolding attempts
  attempts-IsStored zero attempt t t' r e = ground arith
  attempts-IsStored (suc left) attempt t t' r e =
      let once = attempt_once service w uid q attempt t in
      elim (Result-cases once.0) [
        | inr (x, failed) ↦ ground (arith, failed)
        | inl (outcome, done) ↦ elim (Option-cases outcome) [
          | inl again ↦
              attempts-IsStored left (suc attempt) once.1 t' r (ground (arith, done, again))
          | inr (response, answer_made) ↦
              attempt_once-IsStored attempt t t' r (ground (arith, done, answer_made))
        ]
      ]

  -- Whatever the retrieval answers and other clients commit, a recommendation that is returned is
  -- the one that the tables hold for its request ID, with the same k.
  pub recommend-IsStored :
      (t t' : Tables) (r : Recommended) → recommend service w uid q t ≡ (ok r, t') → IsStored r t'
  unfolding recommend
  recommend-IsStored t t' r e =
      let (_, t1, _, rest) =
        bind-ok (rate (join "recommend:" uid) 20 (w.now 0)) (λ _. attempts service w uid q 3 0) t t'
          r e in
      attempts-IsStored 3 0 t1 t' r rest
