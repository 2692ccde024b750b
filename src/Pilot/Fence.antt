-- ===== src/Pilot/Fence.antt =====
-- The generation of the feedback database, which fences a response whose candidates were retrieved
-- outside a transaction (recserve_pilot/store.py).
use recserve.Prelude.{ℕ, ◌+◌, ◌<◌, ◌≡◌, refl, ◌⊎◌, inl, inr, String, Bool, Option, arith}
use recserve.Pilot.Payload.{Payload, Value}
use recserve.Pilot.Tables.{Db, Response}
use recserve.Pilot.Store.{snapshot, publish}
use recserve.Pilot.Apply.{apply, set_unavailable, CrashPoint}
use recserve.Pilot.Apply.Recording.{record_event-journal}
use recserve.Pilot.Apply.Recovery.{apply_atomic}

-- What one call of the store does to the file.
pub data Step {F : Type 0} (db d : Db F) : Type 0 where
  applied :
      (payload : Payload) (crash : Option CrashPoint) (stamp : ℕ)
      → d ≡ (apply payload crash stamp db).1
      → Step db d
  published : (response : Response F) (k now : ℕ) → d ≡ (publish response k now db).1 → Step db d
  marked : (item : Value) (value : Bool) → d ≡ (set_unavailable item value db).1 → Step db d

-- What any number of calls, of any number of clients, do.
pub data Reach {F : Type 0} (db : Db F) : Db F → Type 0 where
  here : Reach db db
  next : {d d' : Db F} → Reach db d → Step d d' → Reach db d'

-- The feedback is the same: a snapshot reads no other table.
pub record SameFeedback {F : Type 0} (db d : Db F) : Type 0 where
  pub events : d.events ≡ db.events
  pub blocked : d.blocked ≡ db.blocked
  pub unavailable : d.unavailable ≡ db.unavailable
  pub item_features : d.item_features ≡ db.item_features

publish-SameFeedback :
    {F : Type 0} (response : Response F) (k now : ℕ) (db : Db F)
    → let d = (publish response k now db).1 in (d.generation ≡ db.generation) × SameFeedback db d
unfolding publish
publish-SameFeedback response k now db = ground arith

set_unavailable-generation :
    {F : Type 0} (item : Value) (value : Bool) (db : Db F)
    → let d = (set_unavailable item value db).1 in (d ≡ db) ⊎ (d.generation ≡ db.generation + 1)
unfolding set_unavailable
set_unavailable-generation item value db = ground arith

-- One call never lowers the generation, and leaves the feedback alone unless it raises it.
Step-fence :
    {F : Type 0} {db d : Db F}
    → Step db d
    → (db.generation < d.generation) ⊎ ((d.generation ≡ db.generation) × SameFeedback db d)
Step-fence {db} (applied payload crash stamp e) = elim (apply_atomic payload crash stamp db) [
  | inl kept ↦ inr (
      rw (e, kept)
        (refl, record { events = refl; blocked = refl; unavailable = refl; item_features = refl }))
  | inr (v, _, _, written, _) ↦
      inl (rw e (omega (arith, (record_event-journal v stamp db _ written).2)))
]
Step-fence {db} (published response k now e) = inr (rw e (publish-SameFeedback response k now db))
Step-fence {db} (marked item value e) = elim (set_unavailable-generation item value db) [
  | inl kept ↦ inr (
      rw (e, kept)
        (refl, record { events = refl; blocked = refl; unavailable = refl; item_features = refl }))
  | inr raised ↦ inl (rw e (omega (arith, raised)))
]

Reach-fence :
    {F : Type 0} {db d : Db F}
    → Reach db d
    → (db.generation < d.generation) ⊎ ((d.generation ≡ db.generation) × SameFeedback db d)
Reach-fence here =
    inr (refl, record { events = refl; blocked = refl; unavailable = refl; item_features = refl })
Reach-fence (next r s) = ground (arith, Reach-fence r, Step-fence s)

-- Whatever other clients commit in between, a file with the same generation gives every user the
-- same snapshot.
pub generation_fences :
    {F : Type 0} (user : String) {db d : Db F}
    → Reach db d
    → d.generation ≡ db.generation
    → snapshot user d ≡ snapshot user db
unfolding snapshot
generation_fences user r e = ground (arith, Reach-fence r)
