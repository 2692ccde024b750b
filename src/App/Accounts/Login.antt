-- ===== src/App/Accounts/Login.antt =====
-- What a login and a login flow give (recserve_app/db.py).
use recserve.Prelude.{
  ℕ, suc, ◌+◌, ◌-◌, ◌≤◌, ◌<◌, ◌≡◌, refl, ap, ◌∙◌, String, Bool, true, false, ◌&&◌, not, Option,
  none, some, List, [], ◌∷◌, any, find?, keep, count, ltb, same, same_refl, arith, Option-cases,
  inl, inr,
}
use recserve.Exec.{ok, err, Result-cases, atomically-ok, bind-ok}
use recserve.App.Schema.{http_exception, UserRow, IdentityRow, SessionRow, FlowRow, Tables}
use recserve.App.Accounts.{
  Texts, FlowSecrets, flow_row, is_flow, start_flow, check_flow, consume_flow, find_user, lock_user,
  account_of, session_row, rotate_session, sign_in, login_session, login, Principal, unauthorized,
  is_enabled, is_alive, authenticate, day_ms, flow_ms,
}

find?-any :
    {A : Type 0} (p q : A → Bool) (rows : List A) {a : A}
    → find? p rows ≡ some a
    → q a ≡ true
    → any (λ r. p r && q r) rows ≡ true
find?-any p q [] {a} h k = cc
find?-any p q (r ∷ rows) {a} h k = ground (arith, find?-any p q rows {a = a})

lock_user-is_enabled :
    (uid : String) (t : Tables) {row : UserRow}
    → (lock_user uid t).0 ≡ ok row
    → is_enabled uid t ≡ true
unfolding lock_user
lock_user-is_enabled uid t {row} h = elim (Option-cases (find_user uid t)) [
  | inl absent ↦ ground arith
  | inr (u, found) ↦
      find?-any (λ r. same r.id uid) (λ r. not r.disabled) t.users found (ground arith)
]

abbrev pub principal_of : SessionRow → Principal
principal_of s = record { user_id = s.user_id; token_hash = s.token_hash; csrf_hash = s.csrf_hash }

-- The answer is made from the row that is found.
pub authenticate-found :
    (x : Texts) (token : String) (stamp : ℕ) (t : Tables) (found : Option SessionRow)
    → find? (is_alive x token stamp t) t.sessions ≡ found
    → (authenticate x token stamp t).0
      ≡ elim found [ none ↦ err unauthorized | some s ↦ ok (principal_of s) ]
unfolding authenticate
authenticate-found x token stamp t none h = ground arith
authenticate-found x token stamp t (some s) h = ground arith

module _ (x : Texts) where
  -- The account of an identity is enabled, and no session has changed.
  account_of-ok :
      (subject email fresh uid : String) (stamp : ℕ) (identity : Option IdentityRow) (t t' : Tables)
      → account_of x subject email fresh stamp identity t ≡ (ok uid, t')
      → (is_enabled uid t' ≡ true) × (t'.sessions ≡ t.sessions)
  unfolding account_of
  account_of-ok subject email fresh uid stamp (some identity) t t' e =
      elim (Result-cases (lock_user identity.user_id t).0) [
        | inr (y, bad) ↦ ground (arith, bad)
        | inl (row, known) ↦
            ground (arith, known, lock_user-is_enabled identity.user_id t {row = row} known)
      ]
  account_of-ok subject email fresh uid stamp none t t' e = ground (arith, same_refl fresh)

  rotate_session-ok :
      (token csrf uid : String) (stamp : ℕ) (t t' : Tables)
      → rotate_session x token csrf uid stamp t ≡ (ok tt, t')
      → (t'.users ≡ t.users)
        × (t'.sessions
            ≡ session_row x token csrf uid stamp ∷ keep (λ s. not (same s.user_id uid)) t.sessions)
  unfolding rotate_session
  rotate_session-ok token csrf uid stamp t t' e = ground arith

  -- The steps of a login that succeeds.
  login-ok :
      (token csrf fresh subject email : String) (stamp : ℕ) (t t' : Tables)
      → login x token csrf fresh subject email stamp t ≡ (ok tt, t')
      → (uid : String) × (t1 : Tables) × (is_enabled uid t1 ≡ true)
        × (rotate_session x token csrf uid stamp t1 ≡ (ok tt, t'))
  unfolding login login_session sign_in
  login-ok token csrf fresh subject email stamp t t' e =
      let folded = x.casefold email in
      let identity = find? (λ i. same i.subject subject) t.identities in
      let entered : sign_in x token csrf fresh subject folded stamp identity t ≡ (ok tt, t') =
        ground (
          arith,
          atomically-ok (login_session x token csrf fresh subject folded stamp) t t' tt e,
        ) in
      let (uid, t1, made, rotated) =
        bind-ok (account_of x subject folded fresh stamp identity)
          (λ u. rotate_session x token csrf u stamp) t t' tt entered in
      (uid, t1, (account_of-ok subject folded fresh uid stamp identity t t1 made).0, rotated)

  count-keep_self :
      (uid : String) (rows : List SessionRow)
      → count (λ s. same s.user_id uid) (keep (λ s. not (same s.user_id uid)) rows) ≡ 0
  count-keep_self uid [] = refl
  count-keep_self uid (s ∷ rows) = ground (arith, count-keep_self uid rows)

  authenticate-first :
      (token csrf uid : String) (stamp stamp' : ℕ) (rows : List SessionRow) (t : Tables)
      → t.sessions ≡ session_row x token csrf uid stamp ∷ rows
      → is_enabled uid t ≡ true
      → stamp' < stamp + day_ms
      → (authenticate x token stamp' t).0
        ≡ ok (record { user_id = uid; token_hash = x.hashed token; csrf_hash = x.hashed csrf })
  authenticate-first token csrf uid stamp stamp' rows t first enabled soon =
      let row = session_row x token csrf uid stamp in
      let alive : is_alive x token stamp' t row ≡ true =
        ground (arith, same_refl (x.hashed token), enabled, soon) in
      authenticate-found x token stamp' t (some row) (rw first (rw alive refl))

  -- After a login, the token is authenticated for a day as an account with the digests of the two
  -- secrets, and this is the account's only session.
  pub login-authenticate :
      (token csrf fresh subject email : String) (stamp stamp' : ℕ) (t t' : Tables)
      → login x token csrf fresh subject email stamp t ≡ (ok tt, t')
      → stamp' < stamp + day_ms
      → (uid : String) × ((authenticate x token stamp' t').0
          ≡ ok (record { user_id = uid; token_hash = x.hashed token; csrf_hash = x.hashed csrf }))
        × (count (λ s. same s.user_id uid) t'.sessions ≡ 1)
  login-authenticate token csrf fresh subject email stamp stamp' t t' e soon =
      let (uid, t1, enabled, rotated) = login-ok token csrf fresh subject email stamp t t' e in
      let (users, sessions) = rotate_session-ok token csrf uid stamp t1 t' rotated in
      (
        uid,
        authenticate-first token csrf uid stamp stamp' _ t' sessions (rw users enabled) soon,
        rw sessions (rw (same_refl uid) (ap suc (count-keep_self uid t1.sessions))),
      )

  pub find?-keep-not :
      (p : FlowRow → Bool) (rows : List FlowRow) → find? p (keep (λ f. not (p f)) rows) ≡ none
  find?-keep-not p [] = refl
  find?-keep-not p (f ∷ rows) = ground (arith, find?-keep-not p rows)

  pub keep-keep-not :
      (p : FlowRow → Bool) (rows : List FlowRow)
      → keep (λ f. not (p f)) (keep (λ f. not (p f)) rows) ≡ keep (λ f. not (p f)) rows
  keep-keep-not p [] = refl
  keep-keep-not p (f ∷ rows) = ground (arith, keep-keep-not p rows)

  abbrev without_flow : String → String → Tables → Tables
  without_flow state browser t = record t {
    oauth_flows = keep (λ f. not (is_flow x state browser f)) t.oauth_flows;
  }

  pub consume_flow-step :
      (state browser : String) (stamp : ℕ) (t : Tables)
      → consume_flow x state browser stamp t
        ≡ check_flow x stamp
            (find? (is_flow x state browser) t.oauth_flows)
            (without_flow state browser t)
  unfolding consume_flow
  consume_flow-step state browser stamp t = refl

  -- What a use of the flow has deleted is not found again.
  consume_flow-again :
      (state browser : String) (stamp : ℕ) (t : Tables)
      → let t' = without_flow state browser t in
        consume_flow x state browser stamp t'
        ≡ (err (http_exception 400 "Invalid or expired login"), t')
  unfolding check_flow
  consume_flow-again state browser stamp t =
      let p = is_flow x state browser in
      consume_flow-step state browser stamp (without_flow state browser t)
      ∙ rw (find?-keep-not p t.oauth_flows, keep-keep-not p t.oauth_flows) refl

  -- A flow that was started is consumed by its state and browser once within ten minutes, and
  -- gives the values that were stored; a second use of it is refused and changes nothing.
  pub start_flow-consume_flow :
      (s : FlowSecrets) (stamp stamp' stamp'' : ℕ) (t t1 : Tables)
      → start_flow x s stamp t ≡ (ok tt, t1)
      → stamp' ≤ stamp + flow_ms
      → let (r, t2) = consume_flow x s.state s.browser stamp' t1 in
        (r ≡ ok (flow_row x s stamp))
        × (consume_flow x s.state s.browser stamp'' t2
            ≡ (err (http_exception 400 "Invalid or expired login"), t2))
  unfolding start_flow check_flow
  start_flow-consume_flow s stamp stamp' stamp'' t t1 e soon =
      let stored : t1.oauth_flows ≡ flow_row x s stamp ∷ t.oauth_flows = ground arith in
      let found : find? (is_flow x s.state s.browser) t1.oauth_flows ≡ some (flow_row x s stamp) =
        rw stored (rw (same_refl (x.hashed s.state), same_refl (x.hashed s.browser)) refl) in
      let in_time : ltb flow_ms (stamp' - stamp) ≡ false = ground (arith, soon) in
      rw (consume_flow-step s.state s.browser stamp' t1)
        (rw found (rw in_time (refl, consume_flow-again s.state s.browser stamp'' t1)))
