-- ===== src/Pilot/Apply/Projection.antt =====
-- The projection (item_features and blocked) against a rebuild from the journal, for
-- recserve_pilot/store.py.
use recserve.Prelude.{
  ℕ, ◌+◌, ◌≡◌, refl, String, Bool, true, false, ◌&&◌, not, List, [], ◌∷◌, any, count, same,
  same_iff, same_refl, if◌then◌else◌, arith,
}
use recserve.Exec.{ok}
use recserve.Pilot.Payload.{Kind, shown, save, dismiss, watched, is_shown, kind_eq, Event}
use recserve.Pilot.Tables.{EventRow, Feature, Db}
use recserve.Pilot.Apply.{
  bump_shown, bump_saved, ensure_feature, block, project_kind, project, record_event, event_row,
  journaled, bump_generation,
}
use recserve.Pilot.Apply.Recording.{record_event-ok}

-- how often the journal has `kind` for `item`
abbrev pub times : String → Kind → List EventRow → ℕ
times item kind = count (λ r. same r.payload.item_id item && kind_eq r.payload.kind kind)

-- whether the journal has an outcome of `user` for `item`
abbrev pub has_outcome : String → String → List EventRow → Bool
has_outcome user item = any (λ r.
    same r.payload.user_id user && same r.payload.item_id item && not (is_shown r.payload.kind))

abbrev pub feature_of : String → List Feature → ℕ × ℕ
feature_of item [] = (0, 0)
feature_of item (f ∷ fs) = if same f.item_id item then (f.shown, f.saved) else feature_of item fs

abbrev pub is_blocked : String → String → List (String × String) → Bool
is_blocked user item = any (λ r. same r.0 user && same r.1 item)

-- The counters and the blocked pairs are those of a rebuild from the journal.
pub record IsProjected {F : Type 0} (db : Db F) : Type 0 where
  pub counted :
      (item : String)
      → feature_of item db.item_features ≡ (times item shown db.events, times item save db.events)
  pub blocks :
      (user item : String) → is_blocked user item db.blocked ≡ has_outcome user item db.events

has_row : String → List Feature → Bool
has_row item = any (λ f. same f.item_id item)

feature_of-absent :
    (item : String) (fs : List Feature) → has_row item fs ≡ false → feature_of item fs ≡ (0, 0)
unfolding has_row
feature_of-absent item [] h = refl
feature_of-absent item (f ∷ fs) h = ground (arith, feature_of-absent item fs)

feature_of-ensure :
    (item j : String) (fs : List Feature) → feature_of j (ensure_feature item fs) ≡ feature_of j fs
unfolding ensure_feature has_row
feature_of-ensure item j fs =
    ground (arith, same_iff item j, feature_of-absent item fs, feature_of-absent j fs)

has_row-ensure : (item : String) (fs : List Feature) → has_row item (ensure_feature item fs) ≡ true
unfolding ensure_feature has_row
has_row-ensure item fs = ground (arith, same_refl item)

feature_of-bump_shown :
    (item j : String) (fs : List Feature)
    → feature_of j (bump_shown item fs) ≡ (
        if same item j && has_row item fs
        then ((feature_of j fs).0 + 1, (feature_of j fs).1)
        else feature_of j fs)
unfolding bump_shown has_row
feature_of-bump_shown item j [] = ground arith
feature_of-bump_shown item j (f ∷ fs) = ground (
  arith,
  same_iff f.item_id item,
  same_iff f.item_id j,
  same_iff item j,
  feature_of-bump_shown item j fs,
)

feature_of-bump_saved :
    (item j : String) (fs : List Feature)
    → feature_of j (bump_saved item fs) ≡ (
        if same item j && has_row item fs
        then ((feature_of j fs).0, (feature_of j fs).1 + 1)
        else feature_of j fs)
unfolding bump_saved has_row
feature_of-bump_saved item j [] = ground arith
feature_of-bump_saved item j (f ∷ fs) = ground (
  arith,
  same_iff f.item_id item,
  same_iff f.item_id j,
  same_iff item j,
  feature_of-bump_saved item j fs,
)

is_blocked-block :
    (user item u i : String) (rows : List (String × String))
    → is_blocked u i (block user item rows)
      ≡ (if same user u && same item i then true else is_blocked u i rows)
unfolding block
is_blocked-block user item u i rows = ground (arith, same_iff user u, same_iff item i)

-- One more event in the journal is one call of `project_kind`.
module _ {F : Type 0} (e : Event) (row : EventRow) (db db' : Db F) (h : IsProjected db)
    (pe : row.payload ≡ e) (ev : db'.events ≡ row ∷ db.events)
    (fe : db'.item_features ≡ db.item_features) (bl : db'.blocked ≡ db.blocked) where
  counts-shown :
      (item : String)
      → e.kind ≡ shown
      → feature_of item (bump_shown e.item_id (ensure_feature e.item_id db'.item_features))
        ≡ (times item shown db'.events, times item save db'.events)
  counts-shown item ke = grind (
    arith,
    h.counted item,
    feature_of-bump_shown e.item_id item (ensure_feature e.item_id db.item_features),
    feature_of-ensure e.item_id item db.item_features,
    has_row-ensure e.item_id db.item_features,
  )

  counts-save :
      (item : String)
      → e.kind ≡ save
      → feature_of item (bump_saved e.item_id (ensure_feature e.item_id db'.item_features))
        ≡ (times item shown db'.events, times item save db'.events)
  counts-save item ke = grind (
    arith,
    h.counted item,
    feature_of-bump_saved e.item_id item (ensure_feature e.item_id db.item_features),
    feature_of-ensure e.item_id item db.item_features,
    has_row-ensure e.item_id db.item_features,
  )

  counts-other :
      (item : String)
      → kind_eq e.kind shown ≡ false
      → kind_eq e.kind save ≡ false
      → feature_of item (ensure_feature e.item_id db'.item_features)
        ≡ (times item shown db'.events, times item save db'.events)
  counts-other item ns nv =
      grind (arith, h.counted item, feature_of-ensure e.item_id item db.item_features)

  blocks-outcome :
      (user item : String)
      → is_shown e.kind ≡ false
      → is_blocked user item (block e.user_id e.item_id db'.blocked)
        ≡ has_outcome user item db'.events
  blocks-outcome user item ns =
      grind (arith, h.blocks user item, is_blocked-block e.user_id e.item_id user item db.blocked)

  project_kind-IsProjected : (k : Kind) → e.kind ≡ k → IsProjected (project_kind k e db')
  unfolding project_kind
  project_kind-IsProjected shown ke = record {
    counted = λ item. counts-shown item ke;
    blocks = λ user item. grind (arith, h.blocks user item);
  }
  project_kind-IsProjected save ke = record {
    counted = λ item. counts-save item ke;
    blocks = λ user item. blocks-outcome user item (rw ke);
  }
  project_kind-IsProjected dismiss ke = record {
    counted = λ item. counts-other item (rw ke) (rw ke);
    blocks = λ user item. blocks-outcome user item (rw ke);
  }
  project_kind-IsProjected watched ke = record {
    counted = λ item. counts-other item (rw ke) (rw ke);
    blocks = λ user item. blocks-outcome user item (rw ke);
  }

-- If the counters and the blocked pairs are those of a rebuild from the journal, they are so after
-- the transaction of a new event that is accepted.
pub record_event-IsProjected :
    {F : Type 0} (e : Event) (stamp : ℕ) (db db' : Db F)
    → IsProjected db
    → record_event e stamp db ≡ ok db'
    → IsProjected db'
unfolding project bump_generation
record_event-IsProjected e stamp db db' h eq =
    let p =
      project_kind-IsProjected e (event_row e stamp db) db (journaled e stamp db) h refl refl refl
        refl e.kind refl in
    rw (record_event-ok e stamp db db' eq).2 (record { counted = p.counted; blocks = p.blocks })
