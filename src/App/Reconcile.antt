-- ===== src/App/Reconcile.antt =====
-- The reconciliation of the accounts with the deletion ledger: `reconcile` of recserve_app/privacy.py. The
-- ledger is a parameter: a call that records a deletion, and one that reads all entries.
pub mod Replayed
pub mod Objects
use recserve.Prelude.{
  ℕ, suc, String, Bool, true, false, not, Option, none, some, List, [], ◌∷◌, keep, same,
  if◌then◌else◌,
}
use recserve.Exec.{Result, ok, err}
use recserve.App.Schema.{Failure, OutboxRow, Tables}
use recserve.App.Deletion.{Ledger, is_delivered, replay_deletions, maintenance}

-- UPDATE outbox SET delivered_ms = stamp WHERE id = id
mark_rows : String → ℕ → List OutboxRow → List OutboxRow
mark_rows id stamp [] = []
mark_rows id stamp (o ∷ rows) =
    (if same o.id id then record o { delivered_ms = some stamp } else o) ∷ mark_rows id stamp rows

unfoldable pub mark_delivered : String → ℕ → Tables → Tables
unfolding mark_rows
mark_delivered id stamp t = record t { outbox = mark_rows id stamp t.outbox }

-- the loop over the pending rows: each is recorded, and marked in a transaction of its own. `now`
-- gives the time of each mark.
unfoldable pub deliver :
    Ledger
    → (ℕ → ℕ)
    → ℕ
    → List OutboxRow
    → Tables
    → List String
    → Result Failure (Unit {0}) × Tables × List String
deliver ledger now i [] t entries = (ok tt, t, entries)
deliver ledger now i (row ∷ rows) t entries =
    let (recorded, entries') = ledger row.user_id entries in
    elim recorded [
      | err x ↦ (err x, t, entries')
      | ok _ ↦ deliver ledger now (suc i) rows (mark_delivered row.id (now i) t) entries'
    ]

-- what follows the loop
unfoldable pub replay :
    Result Failure (List String)
    → ℕ
    → Tables
    → List String
    → Result Failure (Unit {0}) × Tables × List String
replay (err x) stamp t entries = (err x, t, entries)
replay (ok user_ids) stamp t entries =
    (ok tt, maintenance stamp (replay_deletions user_ids t), entries)

unfoldable pub after_delivery :
    (List String → Result Failure (List String))
    → ℕ
    → Result Failure (Unit {0}) × Tables × List String
    → Result Failure (Unit {0}) × Tables × List String
after_delivery read_all stamp (err x, t, entries) = (err x, t, entries)
after_delivery read_all stamp (ok _, t, entries) = replay (read_all entries) stamp t entries

-- `reconcile`; the maintenance reads the clock at `stamp`
unfoldable pub reconcile :
    Ledger
    → (List String → Result Failure (List String))
    → (ℕ → ℕ)
    → ℕ
    → Tables
    → List String
    → Result Failure (Unit {0}) × Tables × List String
reconcile ledger read_all now stamp t entries =
    after_delivery read_all stamp
      (deliver ledger now 0 (keep (λ o. not (is_delivered o)) t.outbox) t entries)
