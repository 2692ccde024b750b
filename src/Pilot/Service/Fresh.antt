-- ===== src/Pilot/Service/Fresh.antt =====
-- The responses that `Pilot.recommend` returns, against the feedback at the moment of their
-- publication (recserve_pilot/service.py).
use recserve.Prelude.{
  ℕ, zero, suc, ◌+◌, ◌*◌, ◌≡◌, refl, ap, ◌∙◌, subst, String, none, some, List, arith, Option-cases,
  inl, inr, ◌⊎◌,
}
use recserve.Exec.{Result, ok, err, Result-cases}
use recserve.Pilot.Payload.{Payload, Error, changed, conflict, invalid, integrity, crashed}
use recserve.Pilot.Tables.{Db, Response}
use recserve.Pilot.Store.{snapshot, cached, publish, find_impression, existing}
use recserve.Pilot.Store.Publishing.{publish_cases, with_response}
use recserve.Pilot.Fence.{Reach, generation_fences}
use recserve.Pilot.Model.{Floats, Model}
use recserve.Pilot.Service.{
  World, Request, retry, publish_at, attempts, after_existing, recommend, parse_request,
}
use recserve.Pilot.Service.Rounds.{respond_total}
use recserve.Pilot.Service.Answer.{IsAnswer, respond-IsAnswer}

-- Other clients change the file by calls of the store alone.
abbrev pub IsShared : {F : Type 0} → World F → Type 0
IsShared {F} w = (n : ℕ) (db : Db F) → Reach db (w.commits n db)

-- The store at a transaction of the call, as other clients have made it: what the call itself writes is not in it.
abbrev pub store_at : {F : Type 0} → World F → Db F → ℕ → Db F
store_at w start zero = start
store_at w start (suc n) = w.commits n (store_at w start n)

module _ {F : Type 0} (num : Floats F) (m : Model) (q : Request) (w : World F) (start : Db F) where
  -- `r` was in the store before the call wrote anything, and the call writes nothing; or it is an answer over
  -- the feedback as it stood when it was written, and that is all that the call writes.
  abbrev pub IsIssued : Response F → Db F → Type 0
  IsIssued r d =
      ((n : ℕ) × (cached q.request_id q.user_id q.k (store_at w start n) ≡ ok (some r))
        × (d ≡ store_at w start n))
      ⊎ ((n : ℕ) × (now : ℕ) × (exposures : List (String × String)) × (find_impression q.request_id
              (store_at w start n)
            ≡ none)
          × IsAnswer num m q (snapshot q.user_id (store_at w start n)) r
          × (d ≡ with_response r q.k now exposures (store_at w start n)))

  -- The fence: what was computed over an older snapshot is published only over an equal one.
  publish-IsIssued :
      (now n : ℕ) (before b : Db F) (answer r : Response F)
      → Reach before b
      → b ≡ store_at w start n
      → IsAnswer num m q (snapshot q.user_id before) answer
      → (publish answer q.k now b).0 ≡ ok r
      → IsIssued r (publish answer q.k now b).1
  unfolding snapshot
  publish-IsIssued now n before b answer r reach here h e = elim (publish_cases answer q.k now b) [
    | inl (_, (x, failed)) ↦ cc
    | inr (inl (kept, (old, issued, was))) ↦ inl (
      n,
      subst (λ s. cached q.request_id q.user_id q.k s ≡ ok (some r)) here
          (rw (← h.request_id, ← h.user_id) (cc (issued, was, e))),
      kept ∙ here,
    )
    | inr (inr (issued, free, fenced, exposures, _, d)) ↦
        let this : answer ≡ r = cc (issued, e) in
        inr (
          n,
          now,
          exposures,
          subst (λ s. find_impression q.request_id s ≡ none) here (rw (← h.request_id) free),
          subst (λ s. IsAnswer num m q (snapshot q.user_id s) r) here
              (rw (generation_fences q.user_id reach (fenced ∙ h.generation))
                (subst (IsAnswer num m q (snapshot q.user_id before)) this h)),
          subst (λ s. (publish answer q.k now b).1 ≡ with_response r q.k now exposures s) here
              (subst (λ x. (publish answer q.k now b).1 ≡ with_response x q.k now exposures b) this
                d),
        )
  ]

  -- a publication that has to be retried has written nothing
  publish-changed :
      (now : ℕ) (b : Db F) (answer : Response F)
      → (publish answer q.k now b).0 ≡ err changed
      → (publish answer q.k now b).1 ≡ b
  publish-changed now b answer e = elim (publish_cases answer q.k now b) [
    | inl (kept, _) ↦ kept
    | inr (inl (kept, _)) ↦ kept
    | inr (inr (issued, free, fenced, exposures, w, written)) ↦ cc
  ]

  retry-ok :
      (x : Result Error (Response F)) (after d : Db F) (rest : Result Error (Response F) × Db F)
      (r : Response F)
      → retry num m x after rest ≡ (ok r, d)
      → ((x ≡ ok r) × (after ≡ d)) ⊎ ((x ≡ err changed) × (rest ≡ (ok r, d)))
  unfolding retry
  retry-ok (ok issued) after d rest r e = inl (cc, ap (λ p. p.1) e)
  retry-ok (err changed) after d rest r e = inr (refl, e)
  retry-ok (err (invalid t)) after d rest r e = cc (ap (λ p. p.0) e)
  retry-ok (err (conflict t)) after d rest r e = cc (ap (λ p. p.0) e)
  retry-ok (err integrity) after d rest r e = cc (ap (λ p. p.0) e)
  retry-ok (err crashed) after d rest r e = cc (ap (λ p. p.0) e)

  attempts-IsIssued :
      (left attempt : ℕ) (db d : Db F) (r : Response F)
      → IsShared w
      → db ≡ store_at w start (attempt * 2)
      → attempts num m w q left attempt db ≡ (ok r, d)
      → IsIssued r d
  unfolding attempts publish publish_at
  attempts-IsIssued zero attempt db d r shared here e = cc (ap (λ p. p.0) e)
  attempts-IsIssued (suc left) attempt db d r shared here e =
      let before = w.commits (attempt * 2) db in
      let b = w.commits (attempt * 2 + 1) before in
      let (answer, there) =
        respond_total num m (w.retrieve attempt) q (snapshot q.user_id before) in
      let published = publish answer q.k (w.now attempt) b in
      let odd : attempt * 2 + 1 ≡ suc (attempt * 2) = omega arith in
      let even : suc (suc (attempt * 2)) ≡ suc attempt * 2 = omega arith in
      let next : b ≡ store_at w start (suc attempt * 2) =
        ap (λ s. w.commits (attempt * 2 + 1) (w.commits (attempt * 2) s)) here
        ∙ ap (λ n. w.commits n (store_at w start (suc (attempt * 2)))) odd
        ∙ ap (store_at w start) even in
      let step : retry num m published.0 published.1
            (attempts num m w q left (suc attempt) published.1)
          ≡ (ok r, d) =
        rw (there, publish_at) at e in
      elim (retry-ok published.0 published.1 d _ r step) [
        | inl (issued, after) ↦ subst (IsIssued r) after (
            publish-IsIssued (w.now attempt) (suc attempt * 2) before b answer r
              (shared (attempt * 2 + 1) before) next
              (respond-IsAnswer num m q (snapshot q.user_id before) (w.retrieve attempt) answer
                there)
              issued)
        | inr (again, later) ↦
            attempts-IsIssued left (suc attempt) published.1 d r shared
              (publish-changed (w.now attempt) b answer again ∙ next) later
      ]

  after_existing-IsIssued :
      (d : Db F) (r : Response F)
      → IsShared w
      → after_existing num m w q (existing q.request_id q.user_id q.k start) start ≡ (ok r, d)
      → IsIssued r d
  unfolding after_existing existing
  after_existing-IsIssued d r shared e =
      elim (Result-cases (cached q.request_id q.user_id q.k start)) [
        | inr (x, clash) ↦ cc (ap (λ p. p.0) (rw (clash, after_existing) at e))
        | inl (found, old) ↦ elim (Option-cases found) [
          | inl absent ↦ attempts-IsIssued 3 0 start d r shared refl (rw (old, absent) at e)
          | inr (was, present) ↦
              let same_call : Path (Result Error (Response F) × Db F) (ok was, start) (ok r, d) =
                rw (old, present) at e in
              inl (
                0,
                ground (arith, old, present, ap (λ p. p.0) same_call),
                ground (arith, ap (λ p. p.1) same_call),
              )
        ]
      ]

pub recommend-IsIssued :
    {F : Type 0} (num : Floats F) (m : Model) (w : World F) (payload : Payload) (db d : Db F)
    (r : Response F)
    → IsShared w
    → recommend num m w payload db ≡ (ok r, d)
    → (q : Request) × (parse_request m payload ≡ ok q) × IsIssued num m q w db r d
unfolding recommend
recommend-IsIssued num m w payload db d r shared e = elim (Result-cases (parse_request m payload)) [
  | inr (x, bad) ↦ cc (ap (λ p. p.0) (rw (bad, recommend) at e))
  | inl (q, parsed) ↦
      (q, parsed, after_existing-IsIssued num m q w db d r shared (rw (parsed, recommend) at e))
]
