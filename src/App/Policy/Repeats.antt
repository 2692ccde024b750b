-- ===== src/App/Policy/Repeats.antt =====
-- Calls that are repeated with the same key (recserve_app/policy.py).
use recserve.Prelude.{
  ℕ, ◌+◌, ◌≡◌, refl, ap, ◌∙◌, subst, String, Bool, true, none, some, List, [], ◌∷◌, find?, same,
  same_refl, arith, Bool-cases, Option-cases, inl, inr,
}
use recserve.Exec.{ok, Result-cases, atomically-ok, bind-ok, atomically-run, bind-run}
use recserve.App.Schema.{
  UserRow, Taste, dislike, neutral, like, Action, shown, save, dismiss, watched, Change,
  Preferences, PreferenceRow, PreferenceResult, MutationRow, Feedback, FeedbackRow, Tables,
}
use recserve.App.Accounts.{ActionOn, lock_user, find_user}
use recserve.App.Policy.{
  Service, account, set_revision, same_changes, taste_eq, same_preferences, same_feedback,
  action_eq, new_rows, write_preferences, preference_result, change_found, change_session,
  change_preferences, find_mutation, find_feedback, check_feedback, write_event, write_outcome,
  event_found, event_session, event,
}

find?-set_revision :
    (uid : String) (n : ℕ) (rows : List UserRow)
    → find? (λ u. same u.id uid) (set_revision uid n rows)
      ≡ elim (find? (λ u. same u.id uid) rows) [
        | none ↦ none
        | some u ↦ some (record u { revision = n })
      ]
unfolding set_revision
find?-set_revision uid n [] = refl
find?-set_revision uid n (u ∷ rows) = ground (arith, find?-set_revision uid n rows)

taste_eq_refl : (v : Taste) → taste_eq v v ≡ true
unfolding taste_eq
taste_eq_refl dislike = refl
taste_eq_refl neutral = refl
taste_eq_refl like = refl

action_eq_refl : (a : Action) → action_eq a a ≡ true
action_eq_refl shown = refl
action_eq_refl save = refl
action_eq_refl dismiss = refl
action_eq_refl watched = refl

same_changes_refl : (cs : List Change) → same_changes cs cs ≡ true
unfolding same_changes
same_changes_refl [] = refl
same_changes_refl (c ∷ cs) = ground (arith, taste_eq_refl c.value, same_changes_refl cs)

same_preferences_refl : (p : Preferences) → same_preferences p p ≡ true
unfolding same_preferences
same_preferences_refl p = ground (arith, same_refl p.request_id, same_changes_refl p.changes)

same_feedback_refl : (e : Feedback) → same_feedback e e ≡ true
unfolding same_feedback
same_feedback_refl e =
    ground (arith, same_refl e.event_id, same_refl e.request_id, action_eq_refl e.kind)

module _ {F : Type 0} (service : Service F) where
  pub account-state :
      (uid : String) (t t' : Tables) (user : UserRow)
      → account service uid t ≡ (ok user, t')
      → t' ≡ t
  unfolding account lock_user
  account-state uid t t' user e = ground arith

  -- A new revision leaves the account as it is otherwise.
  account-revised :
      (uid : String) (n : ℕ) (t t' : Tables) (user : UserRow)
      → account service uid t ≡ (ok user, t)
      → t'.users ≡ set_revision uid n t.users
      → account service uid t' ≡ (ok (record user { revision = n }), t')
  unfolding account lock_user
  account-revised uid n t t' user e users = elim (Option-cases (find_user uid t)) [
    | inl absent ↦ ground (arith, absent)
    | inr (u, found) ↦
        let same_user : u ≡ user = ground (arith, found) in
        let moved : find_user uid t' ≡ some (record user { revision = n }) =
          rw users (find?-set_revision uid n t.users ∙ rw found (rw same_user refl)) in
        ground (arith, moved, found)
  ]

  change_preferences-found :
      (uid : String) (payload : Preferences) (stamp : ℕ) (t : Tables) (user : UserRow)
      (old : MutationRow)
      → account service uid t ≡ (ok user, t)
      → find_mutation uid payload.request_id t ≡ some old
      → same_preferences old.payload payload ≡ true
      → change_preferences service uid payload stamp t ≡ (ok old.response, t)
  unfolding change_preferences change_session
  change_preferences-found uid payload stamp t user old known found equal =
      atomically-run (change_session service uid payload stamp) t t old.response (
        bind-run (account service uid)
          (λ u s.
            change_found service uid payload stamp u (find_mutation uid payload.request_id s) s)
          t t user (ok old.response, t) known (rw found (unfold change_found in rw equal refl)))

  event-found :
      (uid : String) (e : Feedback) (stamp : ℕ) (t : Tables) (user : UserRow) (old : FeedbackRow)
      → account service uid t ≡ (ok user, t)
      → find_feedback uid e.event_id t ≡ some old
      → same_feedback old.payload e ≡ true
      → event service uid e stamp t ≡ (ok true, t)
  unfolding event event_session
  event-found uid e stamp t user old known found equal =
      atomically-run (event_session service uid e stamp) t t true (
        bind-run (account service uid)
          (λ u s. event_found service uid e stamp u (find_feedback uid e.event_id s) s) t t user
          (ok true, t) known (rw found (unfold event_found in rw equal refl)))

  -- What a successful change has done.
  change_preferences-ok :
      (uid : String) (payload : Preferences) (stamp : ℕ) (t t' : Tables) (r : PreferenceResult)
      → change_preferences service uid payload stamp t ≡ (ok r, t')
      → (user : UserRow) × (account service uid t ≡ (ok user, t))
        × (change_found service uid payload stamp user (find_mutation uid payload.request_id t) t
            ≡ (ok r, t'))
  unfolding change_preferences change_session
  change_preferences-ok uid payload stamp t t' r e =
      let f : UserRow → ActionOn PreferenceResult = (λ u s.
        change_found service uid payload stamp u (find_mutation uid payload.request_id s) s) in
      let done = atomically-ok (change_session service uid payload stamp) t t' r e in
      let (user, t1, known, rest) = bind-ok (account service uid) f t t' r done in
      let here : t1 ≡ t = account-state uid t t1 user known in
      (
        user,
        subst (λ s. account service uid t ≡ (ok user, s)) here known,
        subst (λ s. f user s ≡ (ok r, t')) here rest,
      )

  pub event-ok :
      (uid : String) (e : Feedback) (stamp : ℕ) (t t' : Tables) (r : Bool)
      → event service uid e stamp t ≡ (ok r, t')
      → (user : UserRow) × (account service uid t ≡ (ok user, t))
        × (event_found service uid e stamp user (find_feedback uid e.event_id t) t ≡ (ok r, t'))
  unfolding event event_session
  event-ok uid e stamp t t' r h =
      let f : UserRow → ActionOn Bool =
        (λ u s. event_found service uid e stamp u (find_feedback uid e.event_id s) s) in
      let done = atomically-ok (event_session service uid e stamp) t t' r h in
      let (user, t1, known, rest) = bind-ok (account service uid) f t t' r done in
      let here : t1 ≡ t = account-state uid t t1 user known in
      (
        user,
        subst (λ s. account service uid t ≡ (ok user, s)) here known,
        subst (λ s. f user s ≡ (ok r, t')) here rest,
      )

  change_found-old :
      (uid : String) (payload : Preferences) (stamp : ℕ) (user : UserRow) (old : MutationRow)
      (t t' : Tables) (r : PreferenceResult)
      → change_found service uid payload stamp user (some old) t ≡ (ok r, t')
      → (same_preferences old.payload payload ≡ true) × (old.response ≡ r) × (t ≡ t')
  unfolding change_found
  change_found-old uid payload stamp user old t t' r e = ground arith

  change_found-new :
      (uid : String) (payload : Preferences) (stamp : ℕ) (user : UserRow) (t t' : Tables)
      (r : PreferenceResult)
      → change_found service uid payload stamp user none t ≡ (ok r, t')
      → (rows : List PreferenceRow) × (new_rows service uid payload t ≡ ok rows)
        × (preference_result service uid user rows ≡ r)
        × (write_preferences service uid payload stamp user rows t ≡ t')
  unfolding change_found
  change_found-new uid payload stamp user t t' r e =
      elim (Result-cases (new_rows service uid payload t)) [
        | inr (x, refused) ↦ ground arith
        | inl (rows, checked) ↦ (rows, checked, ground arith, ground arith)
      ]

  -- the state that a new change leaves answers the repeat
  change_preferences-written :
      (uid : String) (payload : Preferences) (stamp stamp' : ℕ) (user : UserRow)
      (rows : List PreferenceRow) (t : Tables)
      → account service uid t ≡ (ok user, t)
      → let t' = write_preferences service uid payload stamp user rows t in
        change_preferences service uid payload stamp' t'
        ≡ (ok (preference_result service uid user rows), t')
  unfolding write_preferences
  change_preferences-written uid payload stamp stamp' user rows t known =
      let t' = write_preferences service uid payload stamp user rows t in
      change_preferences-found uid payload stamp' t' (record user { revision = user.revision + 1 })
        (record {
          user_id = uid;
          request_id = payload.request_id;
          payload = payload;
          response = preference_result service uid user rows;
          created_ms = stamp;
        })
        (account-revised uid (user.revision + 1) t t' user known refl)
        (rw (same_refl uid, same_refl payload.request_id) refl) (same_preferences_refl payload)

  -- A change that succeeded gives the same answer when it is repeated, and the repeat writes
  -- nothing.
  pub change_preferences_repeat :
      (uid : String) (payload : Preferences) (stamp stamp' : ℕ) (t t' : Tables)
      (r : PreferenceResult)
      → change_preferences service uid payload stamp t ≡ (ok r, t')
      → change_preferences service uid payload stamp' t' ≡ (ok r, t')
  change_preferences_repeat uid payload stamp stamp' t t' r e =
      let (user, known, done) = change_preferences-ok uid payload stamp t t' r e in
      elim (Option-cases (find_mutation uid payload.request_id t)) [
        | inr (old, found) ↦
            let (equal, answer, kept) =
              change_found-old uid payload stamp user old t t' r (rw found at done) in
            subst (λ s. change_preferences service uid payload stamp' s ≡ (ok r, s)) kept
              (change_preferences-found uid payload stamp' t user old known found equal
                ∙ ap (λ a. (ok a, t)) answer)
        | inl new ↦
            let (rows, _, answer, written) =
              change_found-new uid payload stamp user t t' r (rw new at done) in
            subst (λ s. change_preferences service uid payload stamp' s ≡ (ok r, s)) written
              (change_preferences-written uid payload stamp stamp' user rows t known
                ∙ ap (λ a. (ok a, write_preferences service uid payload stamp user rows t)) answer)
      ]

  pub event_found-old :
      (uid : String) (e : Feedback) (stamp : ℕ) (user : UserRow) (old : FeedbackRow) (t t' : Tables)
      (r : Bool)
      → event_found service uid e stamp user (some old) t ≡ (ok r, t')
      → (same_feedback old.payload e ≡ true) × (t ≡ t') × (r ≡ true)
  unfolding event_found
  event_found-old uid e stamp user old t t' r h = ground arith

  pub event_found-new :
      (uid : String) (e : Feedback) (stamp : ℕ) (user : UserRow) (t t' : Tables) (r : Bool)
      → event_found service uid e stamp user none t ≡ (ok r, t')
      → (check_feedback service uid e stamp t ≡ ok tt)
        × (write_outcome service uid e user (write_event service uid e stamp t) ≡ t')
  unfolding event_found
  event_found-new uid e stamp user t t' r h =
      elim (Result-cases (check_feedback service uid e stamp t)) [
        | inr (x, refused) ↦ ground arith
        | inl (done, checked) ↦ ground arith
      ]

  -- After an outcome is written, the account has another revision at most, and the event is there.
  pub write_outcome-events :
      (uid : String) (e : Feedback) (user : UserRow) (t : Tables)
      → (write_outcome service uid e user t).events ≡ t.events
  unfolding write_outcome
  write_outcome-events uid e user t = ground arith

  write_outcome-account :
      (uid : String) (e : Feedback) (user : UserRow) (t : Tables)
      → account service uid t ≡ (ok user, t)
      → (u : UserRow) × (account service uid (write_outcome service uid e user t)
          ≡ (ok u, write_outcome service uid e user t))
  unfolding write_outcome
  write_outcome-account uid e user t known = elim (Bool-cases (action_eq e.kind shown)) [
    | inl first ↦ (user, rw first known)
    | inr outcome ↦ (
      record user { revision = user.revision + 1 },
      rw outcome (account-revised uid (user.revision + 1) t _ user known refl),
    )
  ]

  write_event-account :
      (uid : String) (e : Feedback) (stamp : ℕ) (t : Tables) (user : UserRow)
      → account service uid t ≡ (ok user, t)
      → account service uid (write_event service uid e stamp t)
        ≡ (ok user, write_event service uid e stamp t)
  unfolding account lock_user write_event
  write_event-account uid e stamp t user known = ground (arith, known)

  -- A repeat of an accepted event is acknowledged as a duplicate at any time, and writes nothing.
  pub event_repeat :
      (uid : String) (e : Feedback) (stamp stamp' : ℕ) (t t' : Tables) (duplicate : Bool)
      → event service uid e stamp t ≡ (ok duplicate, t')
      → event service uid e stamp' t' ≡ (ok true, t')
  event_repeat uid e stamp stamp' t t' duplicate h =
      let (user, known, done) = event-ok uid e stamp t t' duplicate h in
      elim (Option-cases (find_feedback uid e.event_id t)) [
        | inr (old, found) ↦
            let (equal, kept, _) =
              event_found-old uid e stamp user old t t' duplicate (rw found at done) in
            subst (λ s. event service uid e stamp' s ≡ (ok true, s)) kept
              (event-found uid e stamp' t user old known found equal)
        | inl new ↦
            let (_, written) = event_found-new uid e stamp user t t' duplicate (rw new at done) in
            let t1 = write_event service uid e stamp t in
            let (u, known') =
              write_outcome-account uid e user t1 (write_event-account uid e stamp t user known) in
            subst (λ s. event service uid e stamp' s ≡ (ok true, s)) written
              (event-found uid e stamp' (write_outcome service uid e user t1) u
                (record { user_id = uid; payload = e; created_ms = stamp }) known'
                (rw (write_outcome-events uid e user t1)
                  (unfold write_event in rw (same_refl uid, same_refl e.event_id) refl))
                (same_feedback_refl e))
      ]
