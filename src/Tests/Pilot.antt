-- ===== src/Tests/Pilot.antt =====
-- The theorems about the pilot at a concrete file, request and event.
use recserve.Prelude.{ℕ, ◌≡◌, ◌≢◌, ◌⊎◌, refl, none, some, true, false, same}
use recserve.Prelude.Sorting.{sort}
use recserve.Exec.{ok}
use recserve.Pilot.Payload.{
  Event, parse_event, is_identifier, identifier, field, has_keys, kind_of, version_of, time_of,
}
use recserve.Pilot.Tables.{Response}
use recserve.Pilot.Store.{
  snapshot, cached, existing, insert_exposures, publish, open_store, find_event,
}
use recserve.Pilot.Apply.{
  apply, record_event, check_event, in_window, project, bump_generation, before_commit,
  after_commit,
}
use recserve.Pilot.Apply.Recovery.{apply_atomic, apply_retry, apply_repeat}
use recserve.Pilot.Fence.{Reach, here, next, applied, published, generation_fences}
use recserve.Pilot.Journal.{IsSound, Reach-IsSound, open_store-IsSound}
use recserve.Pilot.Model.{eligible, adjusted, scored, ranks_before, rank, item_row}
use recserve.Pilot.Service.{
  size_of, parse_request, row_of, seen_by, update, gather, gather_for, complete, response_of,
  respond, retry, publish_at, attempts, after_existing, recommend,
}
use recserve.Pilot.Service.Rounds.{respond_total}
use recserve.Pilot.Service.Answer.{IsAnswer, respond-IsAnswer}
use recserve.Pilot.Service.Fresh.{IsShared}
use recserve.Pilot.Service.Once.{recommend_repeat}
use recserve.Tests.{
  numbers, films, ask, question, quiet, silent, empty, issued, served, seen_it, shown_event, acted,
}

answered : recommend numbers films quiet ask empty ≡ (ok issued, served)
unfolding same recommend parse_request has_keys field identifier is_identifier size_of existing
    cached after_existing attempts respond gather_for row_of seen_by gather update rank scored
    eligible adjusted ranks_before item_row complete response_of snapshot publish_at publish
    insert_exposures retry sort
answered = refl

quiet-IsShared : IsShared quiet
quiet-IsShared n db = here

opened : open_store "f" none ≡ ok empty
unfolding open_store
opened = refl

empty-IsSound : IsSound empty
empty-IsSound = open_store-IsSound "f" empty opened

published_once : served ≡ (publish issued 1 7 empty).1
unfolding same publish cached insert_exposures
published_once = refl

parsed_event : parse_event seen_it ≡ ok shown_event
unfolding same parse_event has_keys field identifier is_identifier version_of kind_of time_of
parsed_event = refl

recorded : record_event shown_event 100 served ≡ ok acted
unfolding same record_event check_event in_window project bump_generation
recorded = refl

crash_lands : acted ≡ (apply seen_it (some after_commit) 100 served).1
unfolding same apply record_event check_event in_window project bump_generation parse_event has_keys
    field identifier is_identifier version_of kind_of time_of
crash_lands = refl

-- the response is written, and then the process ends right after the commit of the event
played : Reach empty acted
played =
    next (next here (published issued 1 7 published_once))
      (applied seen_it (some after_commit) 100 crash_lands)

Reach-IsSound_example : IsSound acted
Reach-IsSound_example = Reach-IsSound played empty-IsSound

recommend_repeat_example : recommend numbers films silent ask acted ≡ (ok issued, acted)
recommend_repeat_example =
    recommend_repeat numbers films quiet silent ask empty served acted issued quiet-IsShared
      answered (next here (applied seen_it (some after_commit) 100 crash_lands))

apply_retry_example :
    let retried = (apply seen_it none 200 (apply seen_it (some before_commit) 100 served).1).1 in
    (retried ≡ (apply seen_it none 100 served).1) ⊎ (retried ≡ (apply seen_it none 200 served).1)
apply_retry_example = apply_retry seen_it (some before_commit) 100 200 served

apply_atomic_example :
    let disk = (apply seen_it (some after_commit) 100 served).1 in
    (disk ≡ served)
    ⊎ ((e : Event) × (parse_event seen_it ≡ ok e)
        × (find_event e.event_id served ≡ none)
        × (record_event e 100 served ≡ ok disk)
        × (some after_commit ≢ some before_commit))
apply_atomic_example = apply_atomic seen_it (some after_commit) 100 served

accepted : (apply seen_it none 100 served).0 ≡ ok (record { duplicate = false; sequence = 1 })
unfolding same apply record_event check_event in_window project bump_generation parse_event has_keys
    field identifier is_identifier version_of kind_of time_of
accepted = refl

apply_repeat_example :
    let d = (apply seen_it none 100 served).1 in
    apply seen_it none 300 d ≡ (ok (record { duplicate = true; sequence = 1 }), d)
apply_repeat_example =
    apply_repeat seen_it 100 300 served (record { duplicate = false; sequence = 1 }) accepted

generation_fences_example : snapshot "u" served ≡ snapshot "u" empty
generation_fences_example =
    generation_fences "u" (next here (published issued 1 7 published_once)) refl

tried : respond numbers films (quiet.retrieve 0) question (snapshot "u" empty) ≡ some issued
unfolding same respond gather_for row_of seen_by gather update rank scored eligible adjusted
    ranks_before item_row complete response_of snapshot sort
tried = refl

respond-IsAnswer_example : IsAnswer numbers films question (snapshot "u" empty) issued
respond-IsAnswer_example =
    respond-IsAnswer numbers films question (snapshot "u" empty) (quiet.retrieve 0) issued tried

respond_total_example :
    (r : Response ℕ) × (respond numbers films (quiet.retrieve 0) question (snapshot "u" acted)
      ≡ some r)
respond_total_example = respond_total numbers films (quiet.retrieve 0) question (snapshot "u" acted)
