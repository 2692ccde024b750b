-- ===== src/App/Deletion/Forgetting.antt =====
-- What a deletion leaves (recserve_app/db.py).
use recserve.Prelude.{
  ℕ, ◌≡◌, ◌≢◌, refl, sym, ap, ◌∙◌, subst, some, find?, same_refl, ◌&&◌, String, Bool, true, false,
  ◌||◌, not, List, [], ◌∷◌, any, keep, same, same_iff, arith, Bool-cases, Option-cases, inl, inr,
  ◌⊎◌,
}
use recserve.Exec.{ok, err, Result-cases}
use recserve.App.Schema.{database_error, IdentityRow, InvitationRow, Tables}
use recserve.App.Accounts.{lock_user}
use recserve.App.Deletion.{
  Ledger, delete_user, replay_one, replay_deletions, delete_account, erase, email_of, has_email,
  delete_invitation, deletion_row,
}

module _ {A : Type 0} (owner : A → String) where
  any-keep_self :
      (uid : String) (rows : List A)
      → any (λ r. same (owner r) uid) (keep (λ r. not (same (owner r) uid)) rows) ≡ false
  any-keep_self uid [] = refl
  any-keep_self uid (r ∷ rows) = ground (arith, any-keep_self uid rows)

  pub any-keep_other :
      (p : A → Bool) (uid : String) (rows : List A)
      → any (λ r. same (owner r) uid) rows ≡ false
      → any (λ r. same (owner r) uid) (keep p rows) ≡ false
  any-keep_other p uid [] h = refl
  any-keep_other p uid (r ∷ rows) h = ground (arith, any-keep_other p uid rows)

-- No row of the user is in a table that references users. The outbox is not among them.
pub record IsForgotten (uid : String) (t : Tables) : Type 0 where
  pub users : any (λ r. same r.id uid) t.users ≡ false
  pub identities : any (λ r. same r.user_id uid) t.identities ≡ false
  pub sessions : any (λ r. same r.user_id uid) t.sessions ≡ false
  pub preferences : any (λ r. same r.user_id uid) t.preferences ≡ false
  pub item_states : any (λ r. same r.user_id uid) t.item_states ≡ false
  pub requests : any (λ r. same r.user_id uid) t.requests ≡ false
  pub events : any (λ r. same r.user_id uid) t.events ≡ false
  pub mutations : any (λ r. same r.user_id uid) t.mutations ≡ false

-- The user is forgotten, and so is the invitation of the email that the account had in the tables `before`.
pub record IsErased (uid : String) (before t : Tables) : Type 0 where
  pub forgotten : IsForgotten uid t
  pub uninvited :
      (i : IdentityRow)
      → find? (λ j. same j.user_id uid) before.identities ≡ some i
      → any (λ v. same v.email i.email) t.invitations ≡ false

delete_user-IsForgotten : (uid : String) (t : Tables) → IsForgotten uid (delete_user uid t)
unfolding delete_user
delete_user-IsForgotten uid t = record {
  users = any-keep_self (λ r. r.id) uid t.users;
  identities = any-keep_self (λ r. r.user_id) uid t.identities;
  sessions = any-keep_self (λ r. r.user_id) uid t.sessions;
  preferences = any-keep_self (λ r. r.user_id) uid t.preferences;
  item_states = any-keep_self (λ r. r.user_id) uid t.item_states;
  requests = any-keep_self (λ r. r.user_id) uid t.requests;
  events = any-keep_self (λ r. r.user_id) uid t.events;
  mutations = any-keep_self (λ r. r.user_id) uid t.mutations;
}

replay_one-IsForgotten : (uid : String) (t : Tables) → IsForgotten uid (replay_one uid t)
unfolding replay_one
replay_one-IsForgotten uid t = delete_user-IsForgotten uid _

-- A later deletion brings nothing back.
replay_one-keeps :
    (uid other : String) (t : Tables) → IsForgotten uid t → IsForgotten uid (replay_one other t)
unfolding replay_one delete_user
replay_one-keeps uid other t h = record {
  users = any-keep_other (λ r. r.id) _ uid t.users h.users;
  identities = any-keep_other (λ r. r.user_id) _ uid t.identities h.identities;
  sessions = any-keep_other (λ r. r.user_id) _ uid t.sessions h.sessions;
  preferences = any-keep_other (λ r. r.user_id) _ uid t.preferences h.preferences;
  item_states = any-keep_other (λ r. r.user_id) _ uid t.item_states h.item_states;
  requests = any-keep_other (λ r. r.user_id) _ uid t.requests h.requests;
  events = any-keep_other (λ r. r.user_id) _ uid t.events h.events;
  mutations = any-keep_other (λ r. r.user_id) _ uid t.mutations h.mutations;
}

replay_deletions-keeps :
    (uid : String) (user_ids : List String) (t : Tables)
    → IsForgotten uid t
    → IsForgotten uid (replay_deletions user_ids t)
unfolding replay_deletions
replay_deletions-keeps uid [] t h = h
replay_deletions-keeps uid (other ∷ user_ids) t h =
    replay_deletions-keeps uid user_ids (replay_one other t) (replay_one-keeps uid other t h)

pub replay_deletions-outbox :
    (user_ids : List String) (t : Tables) → (replay_deletions user_ids t).outbox ≡ t.outbox
unfolding replay_deletions replay_one delete_user
replay_deletions-outbox [] t = refl
replay_deletions-outbox (uid ∷ user_ids) t = replay_deletions-outbox user_ids (replay_one uid t)

-- A replay of the ledger leaves no row of any account that is in it.
replay_deletions-IsForgotten :
    (uid : String) (user_ids : List String) (t : Tables)
    → any (same uid) user_ids ≡ true
    → IsForgotten uid (replay_deletions user_ids t)
unfolding replay_deletions
replay_deletions-IsForgotten uid [] t h = cc
replay_deletions-IsForgotten uid (other ∷ user_ids) t h = elim (Bool-cases (same uid other)) [
  | inl this ↦
      rw ((same_iff uid other).0 this) (
        replay_deletions-keeps other user_ids (replay_one other t) (replay_one-IsForgotten other t))
  | inr that ↦ replay_deletions-IsForgotten uid user_ids (replay_one other t) (ground arith)
]

email_of-found :
    (uid email : String) (rows : List IdentityRow) (i : IdentityRow)
    → email_of uid rows ≡ some email
    → find? (λ j. same j.user_id uid) rows ≡ some i
    → i.email ≡ email
unfolding email_of
email_of-found uid email [] i h e = cc
email_of-found uid email (row ∷ rows) i h e = elim (Bool-cases (same row.user_id uid)) [
  | inl this ↦ ground (arith, h, e, this)
  | inr that ↦ email_of-found uid email rows i (ground (arith, h, that)) (ground (arith, e, that))
]

has_email-found :
    (uid : String) (rows : List IdentityRow) (i : IdentityRow)
    → find? (λ j. same j.user_id uid) rows ≡ some i
    → has_email uid i.email rows ≡ true
unfolding has_email
has_email-found uid [] i e = cc
has_email-found uid (row ∷ rows) i e = elim (Bool-cases (same row.user_id uid)) [
  | inl this ↦
      let found : row ≡ i = ground (arith, e, this) in
      subst (λ (j : IdentityRow). has_email uid j.email (row ∷ rows) ≡ true) found
        (ground (arith, this, same_refl row.email))
  | inr that ↦
      let rest = has_email-found uid rows i (ground (arith, e, that)) in ground (arith, rest)
]

has_email-keep :
    (uid other email : String) (rows : List IdentityRow)
    → same uid other ≡ false
    → has_email uid email rows ≡ true
    → has_email uid email (keep (λ r. not (same r.user_id other)) rows) ≡ true
unfolding has_email
has_email-keep uid other email [] d h = h
has_email-keep uid other email (row ∷ rows) d h =
    elim (Bool-cases (same row.user_id uid && same row.email email)) [
      | inl this ↦
          let mine : row.user_id ≡ uid = (same_iff row.user_id uid).0 (ground (arith, this)) in
          let stays : same row.user_id other ≡ false = ap (λ u. same u other) mine ∙ d in
          ground (arith, stays, this)
      | inr that ↦
          let rest = has_email-keep uid other email rows d (ground (arith, h, that)) in
          ground (arith, rest)
    ]

any-keep-false :
    {A : Type 0} (p q : A → Bool) (rows : List A) → any p rows ≡ false → any p (keep q rows) ≡ false
any-keep-false p q [] h = refl
any-keep-false p q (r ∷ rows) h = ground (arith, any-keep-false p q rows)

uninvite :
    (q : String → Bool) (email : String) (rows : List InvitationRow)
    → q email ≡ true
    → any (λ v. same v.email email) (keep (λ v. not (q v.email)) rows) ≡ false
uninvite q email [] h = refl
uninvite q email (row ∷ rows) h = elim (Bool-cases (same row.email email)) [
  | inl this ↦
      let gone : q row.email ≡ true = ap q ((same_iff row.email email).0 this) ∙ h in
      ground (arith, gone, uninvite q email rows h)
  | inr that ↦ ground (arith, that, uninvite q email rows h)
]

-- An invitation that is deleted does not come back, and the replay of an account deletes its.
replay_deletions-uninvited :
    (user_ids : List String) (email : String) (t : Tables)
    → any (λ v. same v.email email) t.invitations ≡ false
    → any (λ v. same v.email email) (replay_deletions user_ids t).invitations ≡ false
unfolding replay_deletions replay_one delete_user
replay_deletions-uninvited [] email t h = h
replay_deletions-uninvited (other ∷ user_ids) email t h =
    replay_deletions-uninvited user_ids email (replay_one other t)
      (any-keep-false (λ v. same v.email email) _ t.invitations h)

replay_deletions-invitation :
    (uid email : String) (user_ids : List String) (t : Tables)
    → any (same uid) user_ids ≡ true
    → has_email uid email t.identities ≡ true
    → any (λ v. same v.email email) (replay_deletions user_ids t).invitations ≡ false
unfolding replay_deletions replay_one delete_user
replay_deletions-invitation uid email [] t h known = cc
replay_deletions-invitation uid email (other ∷ user_ids) t h known =
    elim (Bool-cases (same uid other)) [
      | inl this ↦
          let owner : uid ≡ other = (same_iff uid other).0 this in
          replay_deletions-uninvited user_ids email (replay_one other t) (
            uninvite (λ e. has_email other e t.identities) email t.invitations
              (ap (λ u. has_email u email t.identities) (sym owner) ∙ known))
      | inr that ↦
          replay_deletions-invitation uid email user_ids (replay_one other t)
            (ground (arith, h, that)) (has_email-keep uid other email t.identities that known)
    ]

-- A replay of the ledger leaves no row of any account that is in it, nor its invitation.
pub replay_deletions-IsErased :
    (uid : String) (user_ids : List String) (t : Tables)
    → any (same uid) user_ids ≡ true
    → IsErased uid t (replay_deletions user_ids t)
replay_deletions-IsErased uid user_ids t h = record {
  forgotten = replay_deletions-IsForgotten uid user_ids t h;
  uninvited = λ i found.
      replay_deletions-invitation uid i.email user_ids t h
        (has_email-found uid t.identities i found);
}

erase_cases :
    (uid email id : String) (stamp : ℕ) (commits : Bool) (t : Tables)
    → email_of uid t.identities ≡ some email
    → (erase uid email id stamp commits t ≡ (err database_error, t))
      ⊎ ((t' : Tables) × (erase uid email id stamp commits t ≡ (ok tt, t'))
          × IsErased uid t t'
          × (t'.outbox ≡ deletion_row id uid stamp ∷ t.outbox))
unfolding erase delete_user delete_invitation
erase_cases uid email id stamp commits t known =
    elim (Bool-cases (any (λ o. same o.id id) t.outbox || not commits)) [
      | inl fails ↦ inl (rw fails refl)
      | inr fine ↦
          (let marked = record t {
            invitations = keep (λ i. not (same i.email email)) t.invitations;
            outbox = deletion_row id uid stamp ∷ t.outbox;
          } in
            inr (
              delete_user uid marked,
              rw fine refl,
              record {
                forgotten = delete_user-IsForgotten uid marked;
                uninvited = λ i found.
                    ap
                      (λ e.
                        any (λ v. same v.email e)
                          (keep (λ v. not (same v.email email)) t.invitations))
                      (email_of-found uid email t.identities i known found)
                    ∙ uninvite (λ e. same e email) email t.invitations (same_refl email);
              },
              refl,
            ))
    ]

-- If the ledger keeps what it acknowledges, a deletion has one of three ends. It is acknowledged:
-- no row of the account is left in the tables that reference users, the invitation of its email is gone, the
-- outbox has one more row, which says that the deletion is delivered, and a replay of the ledger over any tables leaves
-- no such row and no such invitation. It fails without an acknowledgement of the ledger: the tables are as they
-- were. It fails after that: the tables are as they were, and the replay still erases the account.
pub delete_account-IsErased :
    (record_deletion : Ledger) (uid id : String) (stamp : ℕ) (commits : Bool) (t later : Tables)
    (entries : List String)
    → ((es : List String)
        → (record_deletion uid es).0 ≡ ok tt
        → any (same uid) (record_deletion uid es).1 ≡ true)
    → let (r, t', entries') = delete_account record_deletion uid id stamp commits t entries in
      ((r ≡ ok tt)
        × IsErased uid t t'
        × (t'.outbox ≡ deletion_row id uid stamp ∷ t.outbox)
        × IsErased uid later (replay_deletions entries' later))
      ⊎ ((r ≢ ok tt)
          × (t' ≡ t)
          × ((entries' ≡ entries) ⊎ ((record_deletion uid entries).0 ≢ ok tt)))
      ⊎ ((r ≢ ok tt) × (t' ≡ t) × IsErased uid later (replay_deletions entries' later))
unfolding delete_account
delete_account-IsErased record_deletion uid id stamp commits t later entries kept =
    elim (Result-cases (lock_user uid t).0) [
      | inr (x, unknown) ↦ rw (unknown, delete_account) (inr (inl (cc, refl, inl refl)))
      | inl (row, known) ↦ elim (Option-cases (email_of uid t.identities)) [
        | inl absent ↦ rw (known, absent, delete_account) (inr (inl (cc, refl, inl refl)))
        | inr (email, there) ↦ elim (Result-cases (record_deletion uid entries).0) [
          | inr (x, down) ↦ rw (known, there, down, delete_account) (inr (inl (cc, refl, inr cc)))
          | inl (_, recorded) ↦
              let rest =
                replay_deletions-IsErased uid (record_deletion uid entries).1 later
                  (kept entries recorded) in
              elim (erase_cases uid email id stamp commits t there) [
                | inl fails ↦
                    rw (known, there, recorded, fails, delete_account) (inr (inr (cc, refl, rest)))
                | inr (t', erased, forgotten, logged) ↦
                    rw (known, there, recorded, erased, delete_account)
                      (inl (refl, forgotten, logged, rest))
              ]
        ]
      ]
    ]
