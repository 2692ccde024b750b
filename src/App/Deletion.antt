-- ===== src/App/Deletion.antt =====
-- The end of an account and of old rows: `delete_account`, `replay_deletions` and `maintenance` of
-- `class Database` in recserve_app/db.py. The deletion ledger is a parameter.
pub mod Forgetting
pub mod Retention
use recserve.Prelude.{
  ℕ, suc, ◌+◌, ◌*◌, ◌/◌, String, Bool, true, false, ◌&&◌, ◌||◌, not, Option, none, some, List, [],
  ◌∷◌, any, keep, find?, ltb, same, if◌then◌else◌,
}
use recserve.Exec.{Result, ok, err, Exec, pure, modify, atomically, ◌>>=◌, ◌>>◌}
use recserve.App.Schema.{Failure, database_error, OutboxRow, IdentityRow, Tables}
use recserve.App.Accounts.{ActionOn, day_ms, flow_ms, lock_user}

-- DELETE FROM users WHERE id = uid, which cascades to every table that references it
unfoldable pub delete_user : String → Tables → Tables
delete_user uid t = record t {
  users = keep (λ r. not (same r.id uid)) t.users;
  identities = keep (λ r. not (same r.user_id uid)) t.identities;
  sessions = keep (λ r. not (same r.user_id uid)) t.sessions;
  preferences = keep (λ r. not (same r.user_id uid)) t.preferences;
  item_states = keep (λ r. not (same r.user_id uid)) t.item_states;
  requests = keep (λ r. not (same r.user_id uid)) t.requests;
  events = keep (λ r. not (same r.user_id uid)) t.events;
  mutations = keep (λ r. not (same r.user_id uid)) t.mutations;
}

-- `scalar_one`: the column user_id is unique, so that there is at most one row
email_of : String → List IdentityRow → Option String
email_of uid [] = none
email_of uid (i ∷ rows) = if same i.user_id uid then some i.email else email_of uid rows

delete_invitation : String → Tables → Tables
delete_invitation email t = record t {
  invitations = keep (λ i. not (same i.email email)) t.invitations;
}

abbrev pub deletion_row : String → String → ℕ → OutboxRow
deletion_row id uid stamp = record {
  id = id;
  user_id = uid;
  created_ms = stamp;
  delivered_ms = some stamp;
}

-- the writes after the ledger has the deletion; `commits` is whether the database commits them
erase : String → String → String → ℕ → Bool → Tables → Result Failure (Unit {0}) × Tables
unfolding delete_user delete_invitation
erase uid email id stamp commits t =
    if any (λ o. same o.id id) t.outbox || not commits then (err database_error, t) else (
      ok tt,
      delete_user uid
          (record (delete_invitation email t) { outbox = deletion_row id uid stamp ∷ t.outbox }),
    )

-- `record_deletion`, a call of the ledger: how it ends, and the entries that it leaves, which may have the
-- deletion even if the call fails
abbrev pub Ledger : Type 0
Ledger = String → List String → Result Failure (Unit {0}) × List String

-- `Database.delete_account`; the ledger is not part of the transaction
unfoldable pub delete_account :
    Ledger
    → String
    → String
    → ℕ
    → Bool
    → Tables
    → List String
    → Result Failure (Unit {0}) × Tables × List String
unfolding email_of erase
delete_account record_deletion uid id stamp commits t entries = elim (lock_user uid t).0 [
  | err x ↦ (err x, t, entries)
  | ok _ ↦ elim (email_of uid t.identities) [
    | none ↦ (err database_error, t, entries)
    | some email ↦
        (let (recorded, entries') = record_deletion uid entries in
          elim recorded [
            | err x ↦ (err x, t, entries')
            | ok _ ↦ let (r, t') = erase uid email id stamp commits t in (r, t', entries')
          ])
  ]
]

-- whether `email` is one of the emails of `uid`
has_email : String → String → List IdentityRow → Bool
has_email uid email = any (λ i. same i.user_id uid && same i.email email)

replay_one : String → Tables → Tables
unfolding delete_user has_email
replay_one uid t =
    delete_user uid (record t {
      invitations = keep (λ i. not (has_email uid i.email t.identities)) t.invitations;
    })

-- `Database.replay_deletions`
unfoldable pub replay_deletions : List String → Tables → Tables
unfolding replay_one
replay_deletions [] t = t
replay_deletions (uid ∷ user_ids) t = replay_deletions user_ids (replay_one uid t)

abbrev expired : ℕ → ℕ → ℕ → Bool
expired stamp created age = ltb (created + age) stamp

unfoldable pub is_delivered : OutboxRow → Bool
is_delivered o = elim o.delivered_ms [ none ↦ false | some _ ↦ true ]

-- `Database.maintenance` at the time `stamp`
unfoldable pub maintenance : ℕ → Tables → Tables
unfolding is_delivered
maintenance stamp t = record t {
  oauth_flows = keep (λ f. not (expired stamp f.created_ms flow_ms)) t.oauth_flows;
  sessions =
      keep (λ s. not (expired stamp s.created_ms (7 * day_ms) || expired stamp s.seen_ms day_ms))
        t.sessions;
  events = keep (λ r. not (expired stamp r.created_ms (90 * day_ms))) t.events;
  requests = keep (λ r. not (expired stamp r.created_ms (90 * day_ms))) t.requests;
  mutations = keep (λ r. not (expired stamp r.created_ms (90 * day_ms))) t.mutations;
  rate_limits = keep (λ r. not (ltb (r.window + 2) (stamp / 60000))) t.rate_limits;
  outbox = keep (λ o. not (is_delivered o && expired stamp o.created_ms (8 * day_ms))) t.outbox;
}
