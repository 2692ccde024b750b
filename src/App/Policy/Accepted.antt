-- ===== src/App/Policy/Accepted.antt =====
-- What an accepted event has met and written (recserve_app/policy.py).
use recserve.Prelude.{
  ℕ, ◌+◌, ◌≤◌, ◌≡◌, ◌∙◌, sym, ap, String, true, false, some, ◌∷◌, arith, Option-cases, inl, inr,
  ◌⊎◌,
}
use recserve.Exec.{ok}
use recserve.App.Schema.{shown, Feedback, RequestRow, Tables}
use recserve.App.Accounts.{day_ms}
use recserve.App.Policy.{
  Service, action_eq, find_request, find_feedback, is_issued, has_action, check_feedback,
  write_event, event,
}
use recserve.App.Policy.Repeats.{event-ok, event_found-old, event_found-new, write_outcome-events}

module _ {F : Type 0} (service : Service F) (uid : String) (e : Feedback) (stamp : ℕ) where
  -- the event is about an issued item and in time, its action is new, and an outcome was shown
  pub record IsAcceptable (t : Tables) : Type 0 where
    pub request : RequestRow
    pub found : find_request uid e.request_id t ≡ some request
    pub issued : is_issued service e.item_id request ≡ true
    pub recent : stamp ≤ e.event_time_ms + day_ms
    pub after_issue : request.created_ms ≤ e.event_time_ms + 30000
    pub not_future : e.event_time_ms ≤ stamp + 30000
    pub unrecorded : has_action service uid e.request_id e.item_id e.kind t ≡ false
    pub acknowledged :
        (action_eq e.kind shown ≡ true)
        ⊎ (has_action service uid e.request_id e.item_id shown t ≡ true)

  check_feedback-IsAcceptable :
      (t : Tables) → check_feedback service uid e stamp t ≡ ok tt → IsAcceptable t
  unfolding check_feedback
  check_feedback-IsAcceptable t h = elim (Option-cases (find_request uid e.request_id t)) [
    | inl absent ↦ ground (arith, absent)
    | inr (r, found) ↦ record {
      request = r;
      found = found;
      issued = ground (arith, found);
      recent = ground (arith, found);
      after_issue = ground (arith, found);
      not_future = ground (arith, found);
      unrecorded = ground (arith, found);
      acknowledged = ground (arith, found);
    }
  ]

  -- An event that is accepted as new is about an item that was issued to the account, in time and
  -- not recorded before; an outcome has its acknowledged display; and the journal has one more row,
  -- which is the event.
  pub event-IsAcceptable :
      (t t' : Tables)
      → event service uid e stamp t ≡ (ok false, t')
      → IsAcceptable t
        × (t'.events ≡ record { user_id = uid; payload = e; created_ms = stamp } ∷ t.events)
  unfolding write_event
  event-IsAcceptable t t' h =
      let (user, known, done) = event-ok service uid e stamp t t' false h in
      elim (Option-cases (find_feedback uid e.event_id t)) [
        | inr (old, found) ↦
            cc ((event_found-old service uid e stamp user old t t' false (rw found at done)).2)
        | inl new ↦
            let (checked, written) =
              event_found-new service uid e stamp user t t' false (rw new at done) in
            (
              check_feedback-IsAcceptable t checked,
              ap (λ s. s.events) (sym written)
                  ∙ write_outcome-events service uid e user (write_event service uid e stamp t),
            )
      ]
