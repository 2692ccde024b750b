-- ===== src/Tests/Erasure.antt =====
-- The theorems about the reconciliation, the deletion ledger and the login callback at small tables.
use recserve.Prelude.{
  ◌||◌, ◌⊎◌, ◌≤◌, ◌≡◌, refl, subst, map, if◌then◌else◌, String, true, false, not, none, some, List,
  [], ◌∷◌, any, All, keep, length, same, same_refl, arith,
}
use recserve.Exec.{Result, ok, err}
use recserve.App.Schema.{Failure, http_exception, ledger_error, Tables}
use recserve.App.Accounts.{Texts}
use recserve.App.Deletion.{Ledger, is_delivered, delete_user, replay_deletions, maintenance}
use recserve.App.Deletion.Forgetting.{IsErased}
use recserve.App.Reconcile.{mark_delivered, deliver, replay, after_delivery, reconcile}
use recserve.App.Reconcile.Replayed.{is_pending, reconcile-IsErased}
use recserve.App.Reconcile.Objects.{
  Entry, Body, Objects, key_of, stripped, body_of, record_deletion, check_body, read_entry,
  read_page, read_pages, read_all,
}
use recserve.App.Reconcile.Objects.Kept.{is_listed, read_all-record_deletion}
use recserve.App.Routes.{is_answer, callback}
use recserve.App.Routes.Callback.{callback_once}

abbrev blank : Tables
blank = record {
  users = [];
  identities = [];
  invitations = [];
  sessions = [];
  oauth_flows = [];
  preferences = [];
  item_states = [];
  requests = [];
  events = [];
  mutations = [];
  outbox = [];
  rate_limits = [];
}

-- a restored backup in which "v" is still there, and the deletion of "u" is not delivered
abbrev restored : Tables
restored = record blank {
  users =
      record { id = "v"; created_ms = 1; revision = 0; consent_version = none; disabled = false }
      ∷ [];
  outbox = record { id = "1"; user_id = "u"; created_ms = 5; delivered_ms = none } ∷ [];
}

abbrev settled : Tables
settled = record blank {
  outbox = record { id = "1"; user_id = "u"; created_ms = 5; delivered_ms = some 9 } ∷ [];
}

abbrev read_entries : List String → Result Failure (List String)
read_entries entries = ok entries

abbrev append_ledger : Ledger
append_ledger uid entries = (ok tt, uid ∷ entries)

append_acknowledges :
    (uid : String) (es : List String)
    → (append_ledger uid es).0 ≡ ok tt
    → any (same uid) (append_ledger uid es).1 ≡ true
append_acknowledges uid es h = ground (arith, same_refl uid)

append_holds :
    (uid other : String) (es : List String)
    → any (same uid) es ≡ true
    → any (same uid) (append_ledger other es).1 ≡ true
append_holds uid other es h = ground (arith, h)

read_whole :
    (uid : String) (es user_ids : List String)
    → read_entries es ≡ ok user_ids
    → any (same uid) es ≡ true
    → any (same uid) user_ids ≡ true
read_whole uid es user_ids e h =
    let this : es ≡ user_ids = ground (arith, e) in subst (λ l. any (same uid) l ≡ true) this h

reconciled :
    reconcile append_ledger read_entries (λ i. 9) 9 restored ("v" ∷ [])
    ≡ (ok tt, settled, "u" ∷ "v" ∷ [])
unfolding same reconcile is_delivered deliver mark_delivered after_delivery replay replay_deletions
    delete_user maintenance
reconciled = refl

reconcile-IsErased_example :
    All (λ o. is_delivered o ≡ true) settled.outbox
    × ((uid : String)
        → any (is_pending uid) restored.outbox ≡ true
        → any (same uid) ("u" ∷ "v" ∷ []) ≡ true)
    × ((user_ids : List String) × (read_entries ("u" ∷ "v" ∷ []) ≡ ok user_ids)
        × ((uid : String)
            → (any (same uid) user_ids || any (is_pending uid) restored.outbox) ≡ true
            → IsErased uid restored settled))
reconcile-IsErased_example =
    reconcile-IsErased append_ledger read_entries (λ i. 9) 9 restored settled ("v" ∷ [])
      ("u" ∷ "v" ∷ []) append_acknowledges append_holds read_whole reconciled

abbrev plain_texts : Texts
plain_texts = record { hashed = λ s. s; casefold = λ s. s }

abbrev waiting : Tables
waiting = record blank {
  oauth_flows =
      record { state_hash = "s"; browser_hash = "b"; nonce = "n"; verifier = "w"; created_ms = 0 }
      ∷ [];
}

callback_once_example :
    ((is_answer plain_texts "s" "c" ≡ true)
      × ((detail : String) × ((callback plain_texts
              (λ code nonce verifier. none)
              "s"
              "b"
              "c"
              "t2"
              "x2"
              "f2"
              8
              (callback plain_texts
                (λ code nonce verifier. none)
                "s"
                "b"
                "c"
                "t"
                "x"
                "f"
                7
                waiting).1).0
            ≡ err (http_exception 400 detail))))
    ⊎ ((is_answer plain_texts "s" "c" ≡ false)
        × ((callback plain_texts (λ code nonce verifier. none) "s" "b" "c" "t" "x" "f" 7 waiting).0
            ≡ err (http_exception 400 "Invalid login response"))
        × ((callback plain_texts (λ code nonce verifier. none) "s" "b" "c" "t" "x" "f" 7 waiting).1
            ≡ waiting))
callback_once_example =
    callback_once plain_texts (λ code nonce verifier. none) "s" "b" "c" "t" "x" "f" 7 waiting "c"
      "t2" "x2" "f2" 8

-- an object store that is a dict of decoded entries, listed in one page
abbrev find_body : String → List (String × Body) → Result Failure Body
find_body key [] = err ledger_error
find_body key ((k, b) ∷ rest) = if same k key then ok b else find_body key rest

abbrev entry_of : String × Body → Entry
entry_of (key, b) = record { key = key; size = some 120 }

abbrev dict_objects : Objects (List (String × Body)) Body
dict_objects = record {
  put_object = λ key b s. ok ((key, b) ∷ keep (λ p. not (same p.0 key)) s);
  pages = λ s. ok (map entry_of s) ∷ [];
  get_object = λ s key. find_body key s;
  byte_count = λ b. 120;
  encrypt = λ b. b;
  decrypt = λ b. ok b;
  canonical = λ s. ok s;
}

dict_listed :
    (key : String) (b : Body) (s s' : List (String × Body))
    → dict_objects.put_object key b s ≡ ok s'
    → any (is_listed key) (dict_objects.pages s') ≡ true
dict_listed key b s s' e =
    let this : (key, b) ∷ keep (λ p. not (same p.0 key)) s ≡ s' = ground (arith, e) in
    subst (λ t. any (is_listed key) (dict_objects.pages t) ≡ true) this
      (ground (arith, same_refl key))

dict_found :
    (key : String) (b : Body) (s s' : List (String × Body))
    → dict_objects.put_object key b s ≡ ok s'
    → dict_objects.get_object s' key ≡ ok b
dict_found key b s s' e =
    let this : (key, b) ∷ keep (λ p. not (same p.0 key)) s ≡ s' = ground (arith, e) in
    subst (λ t. find_body key t ≡ ok b) this (ground (arith, same_refl key))

abbrev one_entry : List (String × Body)
one_entry = (key_of "v", body_of "v" 3) ∷ []

abbrev two_entries : List (String × Body)
two_entries = (key_of "u", body_of "u" 9) ∷ one_entry

abbrev both_ids : List String
both_ids = "u" ∷ "v" ∷ []

two_recorded : record_deletion dict_objects "u" none 9 one_entry ≡ ok two_entries
unfolding record_deletion same
two_recorded = refl

two_read : read_all dict_objects two_entries ≡ ok both_ids
unfolding read_all read_pages read_page read_entry check_body stripped same
two_read = refl

read_all-record_deletion_example :
    (id : String) × (dict_objects.canonical "u" ≡ ok id)
    × (any (same id) both_ids ≡ true)
    × (length both_ids ≤ 10000)
read_all-record_deletion_example =
    read_all-record_deletion dict_objects dict_listed dict_found (λ body. refl) "u" none 9 one_entry
      two_entries both_ids two_recorded two_read
