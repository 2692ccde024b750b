-- ===== src/App/Reconcile/Replayed.antt =====
-- What a reconciliation that has succeeded leaves (recserve_app/privacy.py).
use recserve.Prelude.{
  ℕ, suc, ◌≡◌, refl, sym, ap, ◌∙◌, subst, find?, ◌&&◌, Bool, String, true, ◌||◌, not, List, [], ◌∷◌,
  any, keep, All, All-keep, All-map, same, same_iff, same_refl, arith, Bool-cases, inl, inr, ◌⊎◌,
}
use recserve.Exec.{Result, ok, err, Result-cases}
use recserve.App.Schema.{Failure, OutboxRow, Tables}
use recserve.App.Deletion.{Ledger, is_delivered, replay_deletions, maintenance}
use recserve.App.Deletion.Forgetting.{
  IsForgotten, IsErased, replay_deletions-IsErased, replay_deletions-outbox, any-keep_other,
}
use recserve.App.Reconcile.{mark_rows, mark_delivered, deliver, replay, after_delivery, reconcile}

abbrev Settled : List OutboxRow → OutboxRow → Type 0
Settled pending o = (is_delivered o || any (λ r. same r.id o.id) pending) ≡ true

-- what is pending or marked before a step is so after it
mark_rows-Settled :
    (row : OutboxRow) (pending rows : List OutboxRow) (stamp : ℕ)
    → All (Settled (row ∷ pending)) rows
    → All (Settled pending) (mark_rows row.id stamp rows)
unfolding mark_rows is_delivered
mark_rows-Settled row pending [] stamp h = tt
mark_rows-Settled row pending (o ∷ rows) stamp (first, h) = (
  ground (arith, first, same_iff row.id o.id, same_iff o.id row.id),
  mark_rows-Settled row pending rows stamp h,
)

deliver-Settled :
    (ledger : Ledger) (now : ℕ → ℕ) (i : ℕ) (pending : List OutboxRow) (t t' : Tables)
    (entries entries' : List String)
    → All (Settled pending) t.outbox
    → deliver ledger now i pending t entries ≡ (ok tt, t', entries')
    → All (Settled []) t'.outbox
unfolding deliver mark_delivered
deliver-Settled ledger now i [] t t' entries entries' h e =
    let this : t ≡ t' = ground (arith, e) in
    subst (λ (s : Tables). All (Settled []) s.outbox) this h
deliver-Settled ledger now i (row ∷ pending) t t' entries entries' h e =
    elim (Result-cases (ledger row.user_id entries).0) [
      | inr (x, failed) ↦ absurd (ground (arith, e, failed))
      | inl (_, recorded) ↦
          deliver-Settled ledger now (suc i) pending (mark_delivered row.id (now i) t) t'
            (ledger row.user_id entries).1 entries'
            (mark_rows-Settled row pending t.outbox (now i) h) (ground (arith, e, recorded))
    ]

pending-Settled :
    (rows : List OutboxRow) (pending : List OutboxRow)
    → ((o : OutboxRow)
        → any (λ r. same r.id o.id) (keep (λ r. not (is_delivered r)) rows) ≡ true
        → any (λ r. same r.id o.id) pending ≡ true)
    → All (Settled pending) rows
pending-Settled [] pending h = tt
pending-Settled (o ∷ rows) pending h = elim (Bool-cases (is_delivered o)) [
  | inl done ↦ (rw done refl, pending-Settled rows pending (λ q k. h q (ground (arith, k, done))))
  | inr open_row ↦ (
    ground (arith, h o (ground (arith, open_row, same_refl o.id))),
    pending-Settled rows pending (λ q k. h q (ground (arith, k, open_row))),
  )
]

maintenance-IsForgotten :
    (uid : String) (stamp : ℕ) (t : Tables)
    → IsForgotten uid t
    → IsForgotten uid (maintenance stamp t)
unfolding maintenance
maintenance-IsForgotten uid stamp t h = record {
  users = h.users;
  identities = h.identities;
  sessions = any-keep_other (λ r. r.user_id) _ uid t.sessions h.sessions;
  preferences = h.preferences;
  item_states = h.item_states;
  requests = any-keep_other (λ r. r.user_id) _ uid t.requests h.requests;
  events = any-keep_other (λ r. r.user_id) _ uid t.events h.events;
  mutations = any-keep_other (λ r. r.user_id) _ uid t.mutations h.mutations;
}

maintenance-delivered :
    (stamp : ℕ) (t : Tables)
    → All (Settled []) t.outbox
    → All (λ o. is_delivered o ≡ true) (maintenance stamp t).outbox
unfolding maintenance
maintenance-delivered stamp t h =
    All-keep (λ o. is_delivered o ≡ true) _ t.outbox (All-map (λ o k. ground (arith, k)) t.outbox h)

Outcome-cases :
    (r : Result Failure (Unit {0}) × Tables × List String)
    → ((t : Tables) × (entries : List String) × (r ≡ (ok tt, t, entries)))
      ⊎ ((x : Failure) × (t : Tables) × (entries : List String) × (r ≡ (err x, t, entries)))
Outcome-cases (ok u, t, entries) = inl (t, entries, refl)
Outcome-cases (err x, t, entries) = inr (x, t, entries, refl)

-- the rows of `uid` whose deletion is not delivered
abbrev pub is_pending : String → OutboxRow → Bool
is_pending uid o = not (is_delivered o) && same o.user_id uid

-- A ledger has what it acknowledges, and loses nothing.
module _ (ledger : Ledger)
    (acknowledges : (uid : String) (es : List String)
      → (ledger uid es).0 ≡ ok tt
      → any (same uid) (ledger uid es).1 ≡ true)
    (holds : (uid other : String) (es : List String)
      → any (same uid) es ≡ true
      → any (same uid) (ledger other es).1 ≡ true) where
  deliver-holds :
      (uid : String) (now : ℕ → ℕ) (i : ℕ) (pending : List OutboxRow) (t t' : Tables)
      (entries entries' : List String)
      → any (same uid) entries ≡ true
      → deliver ledger now i pending t entries ≡ (ok tt, t', entries')
      → any (same uid) entries' ≡ true
  unfolding deliver mark_delivered
  deliver-holds uid now i [] t t' entries entries' h e =
      let this : entries ≡ entries' = ground (arith, e) in
      subst (λ es. any (same uid) es ≡ true) this h
  deliver-holds uid now i (row ∷ pending) t t' entries entries' h e =
      elim (Result-cases (ledger row.user_id entries).0) [
        | inr (x, failed) ↦ absurd (ground (arith, e, failed))
        | inl (_, recorded) ↦
            deliver-holds uid now (suc i) pending (mark_delivered row.id (now i) t) t'
              (ledger row.user_id entries).1 entries' (holds uid row.user_id entries h)
              (ground (arith, e, recorded))
      ]

  -- every pending deletion is recorded, and of the tables only the outbox changes
  deliver-records :
      (uid : String) (now : ℕ → ℕ) (i : ℕ) (rows : List OutboxRow) (t t' : Tables)
      (entries entries' : List String)
      → any (is_pending uid) rows ≡ true
      → deliver ledger now i (keep (λ o. not (is_delivered o)) rows) t entries
        ≡ (ok tt, t', entries')
      → any (same uid) entries' ≡ true
  unfolding deliver mark_delivered
  deliver-records uid now i [] t t' entries entries' h e = cc
  deliver-records uid now i (row ∷ rows) t t' entries entries' h e =
      elim (Bool-cases (is_delivered row)) [
        | inl done ↦
            deliver-records uid now i rows t t' entries entries' (ground (arith, h, done))
              (rw done at e)
        | inr open_row ↦ elim (Result-cases (ledger row.user_id entries).0) [
          | inr (x, failed) ↦ absurd (ground (arith, e, open_row, failed))
          | inl (_, recorded) ↦
              (let rest : deliver ledger now (suc i) (keep (λ o. not (is_delivered o)) rows)
                      (mark_delivered row.id (now i) t) (ledger row.user_id entries).1
                    ≡ (ok tt, t', entries') =
                  ground (arith, e, open_row, recorded) in
                elim (Bool-cases (same row.user_id uid)) [
                  | inl this ↦
                      let owner : row.user_id ≡ uid = (same_iff row.user_id uid).0 this in
                      deliver-holds uid now (suc i) (keep (λ o. not (is_delivered o)) rows)
                        (mark_delivered row.id (now i) t) t' (ledger row.user_id entries).1 entries'
                        (subst (λ u. any (same u) (ledger row.user_id entries).1 ≡ true) owner
                          (acknowledges row.user_id entries recorded))
                        rest
                  | inr that ↦
                      deliver-records uid now (suc i) rows (mark_delivered row.id (now i) t) t'
                        (ledger row.user_id entries).1 entries' (ground (arith, h, that)) rest
                ])
        ]
      ]

deliver-identities :
    (ledger : Ledger) (now : ℕ → ℕ) (i : ℕ) (pending : List OutboxRow) (t t' : Tables)
    (entries entries' : List String)
    → deliver ledger now i pending t entries ≡ (ok tt, t', entries')
    → t.identities ≡ t'.identities
unfolding deliver mark_delivered
deliver-identities ledger now i [] t t' entries entries' e =
    let this : t ≡ t' = ground (arith, e) in ap (λ (s : Tables). s.identities) this
deliver-identities ledger now i (row ∷ pending) t t' entries entries' e =
    elim (Result-cases (ledger row.user_id entries).0) [
      | inr (x, failed) ↦ absurd (ground (arith, e, failed))
      | inl (_, recorded) ↦
          deliver-identities ledger now (suc i) pending (mark_delivered row.id (now i) t) t'
            (ledger row.user_id entries).1 entries' (ground (arith, e, recorded))
    ]

maintenance-IsErased :
    (uid : String) (stamp : ℕ) (before t : Tables)
    → IsErased uid before t
    → IsErased uid before (maintenance stamp t)
unfolding maintenance
maintenance-IsErased uid stamp before t h = record {
  forgotten = maintenance-IsForgotten uid stamp t h.forgotten;
  uninvited = h.uninvited;
}

IsErased-from :
    (uid : String) (before now t : Tables)
    → before.identities ≡ now.identities
    → IsErased uid now t
    → IsErased uid before t
IsErased-from uid before now t e h = record {
  forgotten = h.forgotten;
  uninvited = λ i found. h.uninvited i (ap (find? (λ j. same j.user_id uid)) (sym e) ∙ found);
}

-- If the ledger has what it acknowledges and loses nothing, and its reading gives what it has, a reconciliation that succeeds
-- has recorded every deletion that was pending in the outbox and leaves none that is not marked as delivered; and each account
-- that was pending, or is in the ledger as it was read, is erased: it has no row in a table that references users,
-- and the invitation of the email that it had is gone.
pub reconcile-IsErased :
    (ledger : Ledger) (read_all : List String → Result Failure (List String)) (now : ℕ → ℕ)
    (stamp : ℕ) (t t' : Tables) (entries entries' : List String)
    (acknowledges : (uid : String) (es : List String)
      → (ledger uid es).0 ≡ ok tt
      → any (same uid) (ledger uid es).1 ≡ true)
    (holds : (uid other : String) (es : List String)
      → any (same uid) es ≡ true
      → any (same uid) (ledger other es).1 ≡ true)
    (reads : (uid : String) (es user_ids : List String)
      → read_all es ≡ ok user_ids
      → any (same uid) es ≡ true
      → any (same uid) user_ids ≡ true)
    → reconcile ledger read_all now stamp t entries ≡ (ok tt, t', entries')
    → All (λ o. is_delivered o ≡ true) t'.outbox
      × ((uid : String) → any (is_pending uid) t.outbox ≡ true → any (same uid) entries' ≡ true)
      × ((user_ids : List String) × (read_all entries' ≡ ok user_ids)
          × ((uid : String)
              → (any (same uid) user_ids || any (is_pending uid) t.outbox) ≡ true
              → IsErased uid t t'))
unfolding reconcile after_delivery replay
reconcile-IsErased ledger read_all now stamp t t' entries entries' acknowledges holds reads e =
    let pending = keep (λ o. not (is_delivered o)) t.outbox in
    elim (Outcome-cases (deliver ledger now 0 pending t entries)) [
      | inr (x, s, rest, failed) ↦ absurd (ground (arith, e, failed))
      | inl (t1, known, delivered) ↦ elim (Result-cases (read_all known)) [
        | inr (x, unread) ↦ absurd (ground (arith, e, delivered, unread))
        | inl (user_ids, read) ↦
            (let last : maintenance stamp (replay_deletions user_ids t1) ≡ t' =
                ground (arith, e, delivered, read) in
              let same_entries : known ≡ entries' = ground (arith, e, delivered, read) in
              let recorded : (uid : String)
                  → any (is_pending uid) t.outbox ≡ true
                  → any (same uid) known ≡ true =
                λ uid h.
                  deliver-records ledger acknowledges holds uid now 0 t.outbox t t1 entries known h
                    delivered in
              (
                subst (λ (s : Tables). All (λ o. is_delivered o ≡ true) s.outbox) last
                    (maintenance-delivered stamp (replay_deletions user_ids t1) (
                      subst (All (Settled [])) (sym (replay_deletions-outbox user_ids t1)) (
                        deliver-Settled ledger now 0 pending t t1 entries known
                          (pending-Settled t.outbox pending (λ o h. h)) delivered))),
                λ uid h. subst (λ es. any (same uid) es ≡ true) same_entries (recorded uid h),
                (
                  user_ids,
                  subst (λ l. read_all l ≡ ok user_ids) same_entries read,
                  λ uid h. subst (IsErased uid t) last (
                      maintenance-IsErased uid stamp t (replay_deletions user_ids t1) (
                        IsErased-from uid t t1 _
                          (deliver-identities ledger now 0 pending t t1 entries known delivered)
                          (replay_deletions-IsErased uid user_ids t1
                            (elim (Bool-cases (any (same uid) user_ids)) [
                              | inl listed ↦ listed
                              | inr other ↦
                                  reads uid known user_ids read
                                    (recorded uid (ground (arith, h, other)))
                            ])))),
                ),
              ))
      ]
    ]
