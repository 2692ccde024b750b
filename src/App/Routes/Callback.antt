-- ===== src/App/Routes/Callback.antt =====
-- The login of recserve_app/api.py: what a callback leaves of its flow.
use recserve.Prelude.{
  ℕ, ◌≡◌, refl, ap, ◌∙◌, String, true, not, Option, none, some, List, find?, keep, same, arith,
  Bool-cases, inl, inr, ◌⊎◌, false,
}
use recserve.Exec.{Result, err, bind-keeps, atomically-keeps, ◌>>=◌}
use recserve.App.Schema.{Failure, http_exception, FlowRow, IdentityRow, Tables}
use recserve.App.Accounts.{
  Texts, consume_flow, check_flow, is_flow, account_of, rotate_session, sign_in, login_session,
  login,
}
use recserve.App.Accounts.Login.{consume_flow-step, find?-keep-not}
use recserve.App.Routes.{is_answer, enter, after_flow, callback}

abbrev flows_of : Tables → List FlowRow
flows_of t = t.oauth_flows

module _ (x : Texts) where
  account_of-flows :
      (subject email fresh : String) (stamp : ℕ) (identity : Option IdentityRow) (t : Tables)
      → (account_of x subject email fresh stamp identity t).1.oauth_flows ≡ t.oauth_flows
  unfolding account_of
  account_of-flows subject email fresh stamp none t = ground arith
  account_of-flows subject email fresh stamp (some identity) t = ground arith

  rotate_session-flows :
      (token csrf uid : String) (stamp : ℕ) (t : Tables)
      → (rotate_session x token csrf uid stamp t).1.oauth_flows ≡ t.oauth_flows
  unfolding rotate_session
  rotate_session-flows token csrf uid stamp t = ground arith

  sign_in-flows :
      (token csrf fresh subject email : String) (stamp : ℕ) (identity : Option IdentityRow)
      (t : Tables)
      → (sign_in x token csrf fresh subject email stamp identity t).1.oauth_flows ≡ t.oauth_flows
  unfolding sign_in
  sign_in-flows token csrf fresh subject email stamp identity t =
      bind-keeps flows_of (account_of x subject email fresh stamp identity)
        (λ uid. rotate_session x token csrf uid stamp) t
        (account_of-flows subject email fresh stamp identity t)
        (λ uid s. rotate_session-flows token csrf uid stamp s)

  login-flows :
      (token csrf fresh subject email : String) (stamp : ℕ) (t : Tables)
      → (login x token csrf fresh subject email stamp t).1.oauth_flows ≡ t.oauth_flows
  unfolding login login_session
  login-flows token csrf fresh subject email stamp t =
      let folded = x.casefold email in
      let identity = find? (λ (i : IdentityRow). same i.subject subject) t.identities in
      let entered = sign_in-flows token csrf fresh subject folded stamp identity t in
      atomically-keeps flows_of (login_session x token csrf fresh subject folded stamp) t
        (ground (arith, entered))

  -- the flow that a callback has looked for is gone
  enter-flows :
      (token csrf fresh : String) (stamp : ℕ) (who : Option (String × String)) (t : Tables)
      → (enter x token csrf fresh stamp who t).1.oauth_flows ≡ t.oauth_flows
  unfolding enter
  enter-flows token csrf fresh stamp none t = refl
  enter-flows token csrf fresh stamp (some (subject, email)) t =
      login-flows token csrf fresh subject email stamp t

  check_flow-flows :
      (stamp : ℕ) (row : Option FlowRow) (t : Tables)
      → (check_flow x stamp row t).1.oauth_flows ≡ t.oauth_flows
  unfolding check_flow
  check_flow-flows stamp none t = refl
  check_flow-flows stamp (some row) t = refl

  callback-flows :
      (exchange : String → String → String → Option (String × String))
      (state browser code token csrf fresh : String) (stamp : ℕ) (t : Tables)
      → is_answer x state code ≡ true
      → (callback x exchange state browser code token csrf fresh stamp t).1.oauth_flows
        ≡ keep (λ f. not (is_flow x state browser f)) t.oauth_flows
  unfolding callback after_flow
  callback-flows exchange state browser code token csrf fresh stamp t ok_answer =
      let rest = after_flow x (exchange code) token csrf fresh stamp in
      let used = find? (is_flow x state browser) t.oauth_flows in
      let consumed : (consume_flow x state browser stamp t).1.oauth_flows
          ≡ keep (λ f. not (is_flow x state browser f)) t.oauth_flows =
        ap (λ (r : Result Failure FlowRow × Tables). r.1.oauth_flows)
          (consume_flow-step x state browser stamp t)
        ∙ check_flow-flows stamp used _ in
      rw ok_answer (
        bind-keeps flows_of (consume_flow x state browser stamp) rest t consumed
          (λ flow s. enter-flows token csrf fresh stamp (exchange code flow.nonce flow.verifier) s))

  callback-refused :
      (exchange : String → String → String → Option (String × String))
      (state browser code token csrf fresh : String) (stamp : ℕ) (t : Tables)
      → is_answer x state code ≡ true
      → find? (is_flow x state browser) t.oauth_flows ≡ none
      → (callback x exchange state browser code token csrf fresh stamp t).0
        ≡ err (http_exception 400 "Invalid or expired login")
  unfolding callback check_flow
  callback-refused exchange state browser code token csrf fresh stamp t ok_answer used =
      let left = (consume_flow x state browser stamp t).1 in
      let consumed : (consume_flow x state browser stamp t).0
          ≡ err (http_exception 400 "Invalid or expired login") =
        ap (λ (r : Result Failure FlowRow × Tables). r.0)
          (consume_flow-step x state browser stamp t)
        ∙ rw used refl in
      rw ok_answer (rw (consumed, ◌>>=◌) refl)

  -- a callback that has used its flow
  second_refused :
      (exchange : String → String → String → Option (String × String))
      (state browser code token csrf fresh : String) (stamp : ℕ) (t : Tables)
      (code' token' csrf' fresh' : String) (stamp' : ℕ)
      → is_answer x state code ≡ true
      → let t' = (callback x exchange state browser code token csrf fresh stamp t).1 in
        (detail : String) × ((callback x exchange state browser code' token' csrf' fresh' stamp'
            t').0
          ≡ err (http_exception 400 detail))
  unfolding callback
  second_refused exchange state browser code token csrf fresh stamp t code' token' csrf' fresh'
        stamp' ok_answer =
      let t' = (callback x exchange state browser code token csrf fresh stamp t).1 in
      let used : find? (is_flow x state browser) t'.oauth_flows ≡ none =
        ap (find? (is_flow x state browser))
          (callback-flows exchange state browser code token csrf fresh stamp t ok_answer)
        ∙ find?-keep-not x (is_flow x state browser) t.oauth_flows in
      elim (Bool-cases (is_answer x state code')) [
        | inr bad ↦ ("Invalid login response", rw bad refl)
        | inl good ↦ (
          "Invalid or expired login",
          callback-refused exchange state browser code' token' csrf' fresh' stamp' t' good used,
        )
      ]

  -- Take a callback with a state and a browser, and a later one with the same two. If the state and the code of the first
  -- are present and not too long, the later one is refused, whatever comes of the first. Otherwise the
  -- first is refused, and the tables are as they were.
  pub callback_once :
      (exchange : String → String → String → Option (String × String))
      (state browser code token csrf fresh : String) (stamp : ℕ) (t : Tables)
      (code' token' csrf' fresh' : String) (stamp' : ℕ)
      → let (r, t') = callback x exchange state browser code token csrf fresh stamp t in
        ((is_answer x state code ≡ true)
          × ((detail : String) × ((callback x exchange state browser code' token' csrf' fresh'
                  stamp' t').0
                ≡ err (http_exception 400 detail))))
        ⊎ ((is_answer x state code ≡ false)
            × (r ≡ err (http_exception 400 "Invalid login response"))
            × (t' ≡ t))
  unfolding callback
  callback_once exchange state browser code token csrf fresh stamp t code' token' csrf' fresh'
        stamp' =
      elim (Bool-cases (is_answer x state code)) [
        | inr bad ↦ inr (bad, rw bad refl, rw bad refl)
        | inl ok_answer ↦ inl (
          ok_answer,
          second_refused exchange state browser code token csrf fresh stamp t code' token' csrf'
              fresh' stamp' ok_answer,
        )
      ]
