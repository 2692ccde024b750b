-- ===== src/App/Deletion/Retention.antt =====
-- What `maintenance` of recserve_app/db.py does not touch.
use recserve.Prelude.{
  ℕ, ◌*◌, ◌≤◌, ◌≡◌, refl, String, Bool, true, ◌||◌, not, List, [], ◌∷◌, find?, keep, arith, sym,
  ◌∙◌,
}
use recserve.App.Schema.{SessionRow, Tables}
use recserve.App.Accounts.{Texts, authenticate, is_alive, day_ms}
use recserve.App.Accounts.Login.{authenticate-found}
use recserve.App.Deletion.{maintenance, expired}

find?-keep :
    {A : Type 0} (p q : A → Bool) (rows : List A)
    → ((r : A) → p r ≡ true → q r ≡ true)
    → find? p (keep q rows) ≡ find? p rows
find?-keep p q [] h = refl
find?-keep p q (r ∷ rows) h = ground (arith, h r, find?-keep p q rows h)

is_fresh : ℕ → SessionRow → Bool
is_fresh stamp s = not (expired stamp s.created_ms (7 * day_ms) || expired stamp s.seen_ms day_ms)

is_alive-fresh :
    (x : Texts) (token : String) (stamp stamp' : ℕ) (t : Tables) (s : SessionRow)
    → stamp ≤ stamp'
    → is_alive x token stamp' t s ≡ true
    → is_fresh stamp s ≡ true
unfolding is_fresh
is_alive-fresh x token stamp stamp' t s h alive = ground (arith, h)

-- Maintenance logs nobody out: from then on, a token is authenticated exactly as without it.
pub authenticate-maintenance :
    (x : Texts) (token : String) (stamp stamp' : ℕ) (t : Tables)
    → stamp ≤ stamp'
    → (authenticate x token stamp' (maintenance stamp t)).0 ≡ (authenticate x token stamp' t).0
unfolding maintenance is_fresh
authenticate-maintenance x token stamp stamp' t h =
    authenticate-found x token stamp' (maintenance stamp t) _ (
      find?-keep (is_alive x token stamp' t) (is_fresh stamp) t.sessions
        (λ s. is_alive-fresh x token stamp stamp' t s h))
    ∙ sym (authenticate-found x token stamp' t _ refl)
