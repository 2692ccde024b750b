-- ===== src/App/Recommend/Fresh.antt =====
-- What an attempt of `Policy.recommend` reads, computes and writes (recserve_app/policy.py).
use recserve.Prelude.{
  refl, any, any-append, map, keep, same, ◌&&◌, ◌||◌, Bool, true, false, List, [], All-map, ℕ, ◌+◌,
  ◌*◌, ◌≡◌, ap, sym, ◌∙◌, subst, String, not, Option, none, some, ◌∷◌, All, ◌==◌, arith, Bool-cases,
  inl, inr,
}
use recserve.Exec.{ok, Result-cases, atomically-ok, bind-ok}
use recserve.App.Selection.{Movie, movie_of, mem, select_items}
use recserve.App.Selection.Replenished.{IsSelection, select_items-IsSelection}
use recserve.App.Schema.{UserRow, Taste, PreferenceRow, Recommended, Tables}
use recserve.App.Accounts.{ActionOn}
use recserve.App.Policy.{Service, account, find_request}
use recserve.App.Policy.Repeats.{account-state}
use recserve.App.Recommend.{
  Query, Around, Look, Found, open_for, look_at, blocked_for, preferences_of, is_marked, look_found,
  look_session, look, answer, request_row, issue_found, issue_session, issue, continue_with,
  attempt_once,
}

-- The account has no preference about the movie, and has not saved, watched or dismissed it.
pub record IsUntouched (uid : String) (t : Tables) (item : ℕ) : Type 0 where
  pub unrated : any (λ p. same p.user_id uid && p.item_id == item) t.preferences ≡ false
  pub unsaved : any (λ s. same s.user_id uid && s.item_id == item && s.saved) t.item_states ≡ false
  pub unwatched :
      any (λ s. same s.user_id uid && s.item_id == item && s.watched) t.item_states ≡ false
  pub undismissed :
      any (λ s. same s.user_id uid && s.item_id == item && s.dismissed) t.item_states ≡ false

-- what a query of the rows does not find is not among the rows
mem-query :
    {A : Type 0} (p q : A → Bool) (item_of : A → ℕ) (item : ℕ)
    (covers : (a : A) → q a ≡ true → (p a ≡ true) × (item_of a ≡ item)) (rows : List A)
    → mem item (map item_of (keep p rows)) ≡ false
    → any q rows ≡ false
mem-query p q item_of item covers [] h = refl
mem-query p q item_of item covers (a ∷ rows) h = elim (Bool-cases (q a)) [
  | inl found ↦ let (kept, this) = covers a found in absurd (ground (arith, h, kept, this))
  | inr other ↦ elim (Bool-cases (p a)) [
    | inl kept ↦
        let rest = mem-query p q item_of item covers rows (ground (arith, h, kept)) in
        ground (arith, other, rest)
    | inr left ↦
        let rest = mem-query p q item_of item covers rows (rw left at h) in
        ground (arith, other, rest)
  ]
]

mem-preferences_of :
    (uid : String) (item : ℕ) (t : Tables) (rows : List PreferenceRow)
    → mem item (
        map
          (λ (p : ℕ × Taste). p.0)
          (map (λ r. (r.item_id, r.value)) (keep (λ r. same r.user_id uid) rows)))
      ≡ mem item (map (λ r. r.item_id) (keep (λ r. same r.user_id uid) rows))
mem-preferences_of uid item t [] = refl
mem-preferences_of uid item t (r ∷ rows) = elim (Bool-cases (same r.user_id uid)) [
  | inl mine ↦ rw mine (ap (λ b. (r.item_id == item) || b) (mem-preferences_of uid item t rows))
  | inr other ↦ rw other (mem-preferences_of uid item t rows)
]

blocked_for-IsUntouched :
    (uid : String) (t : Tables) (item : ℕ)
    → mem item (blocked_for uid t) ≡ false
    → IsUntouched uid t item
unfolding blocked_for preferences_of is_marked
blocked_for-IsUntouched uid t item h =
    let split =
      any-append (λ i. i == item) (map (λ (p : ℕ × Taste). p.0) (preferences_of uid t))
        (map (λ s. s.item_id) (keep (is_marked uid) t.item_states)) in
    let rated : mem item (map (λ r. r.item_id) (keep (λ r. same r.user_id uid) t.preferences))
        ≡ false =
      sym (mem-preferences_of uid item t t.preferences) ∙ ground (arith, h, split) in
    let marked : mem item (map (λ s. s.item_id) (keep (is_marked uid) t.item_states)) ≡ false =
      ground (arith, h, split) in
    record {
      unrated =
          mem-query (λ r. same r.user_id uid) _ (λ r. r.item_id) item
            (λ r k. (ground (arith, k), ground (arith, k))) t.preferences rated;
      unsaved =
          mem-query (is_marked uid) _ (λ s. s.item_id) item
            (λ s k. (ground (arith, k), ground (arith, k))) t.item_states marked;
      unwatched =
          mem-query (is_marked uid) _ (λ s. s.item_id) item
            (λ s k. (ground (arith, k), ground (arith, k))) t.item_states marked;
      undismissed =
          mem-query (is_marked uid) _ (λ s. s.item_id) item
            (λ s k. (ground (arith, k), ground (arith, k))) t.item_states marked;
    }

module _ {F : Type 0} (service : Service F) (w : Around) (uid : String) (q : Query) where
  -- A response that an attempt has made itself: read, computed, and written over the same revision.
  pub record IsFresh (attempt : ℕ) (r : Recommended) (read_from written_to t' : Tables)
      : Type 0 where
    pub reader : UserRow
    pub allowed : account service uid read_from ≡ (ok reader, read_from)
    pub computed : answer service w uid q attempt (look_at uid reader read_from) ≡ ok r
    pub writer : UserRow
    pub still_allowed : account service uid written_to ≡ (ok writer, written_to)
    pub fenced : writer.revision ≡ reader.revision
    pub stamp : ℕ
    pub stored :
        t'
        ≡ record written_to { requests = request_row service w uid q r stamp ∷ written_to.requests }

  look_found-open :
      (stamp : ℕ) (user : UserRow) (t t1 : Tables) (found : Found)
      → look_found service w uid q stamp user none t ≡ (ok found, t1)
      → (open_for (look_at uid user t) ≡ found) × (t ≡ t1)
  unfolding look_found
  look_found-open stamp user t t1 found e = ground arith

  issue_found-new :
      (stamp : ℕ) (response r : Recommended) (user : UserRow) (t t' : Tables)
      → issue_found service w uid q stamp response user none t ≡ (ok (some r), t')
      → (user.revision ≡ response.preference_revision)
        × (response ≡ r)
        × (record t { requests = request_row service w uid q response stamp ∷ t.requests } ≡ t')
  unfolding issue_found
  issue_found-new stamp response r user t t' e =
      elim (Bool-cases (not (user.revision == response.preference_revision))) [
        | inl changed ↦ ground arith
        | inr kept ↦ (ground arith, ground arith, ground arith)
      ]

  look-open :
      (stamp : ℕ) (t t1 : Tables) (found : Found)
      → look service w uid q stamp t ≡ (ok found, t1)
      → find_request uid q.request_id t ≡ none
      → (user : UserRow) × (account service uid t ≡ (ok user, t))
        × (open_for (look_at uid user t) ≡ found)
        × (t ≡ t1)
  unfolding look look_session
  look-open stamp t t1 found e free =
      let f : UserRow → ActionOn Found =
        (λ u s. look_found service w uid q stamp u (find_request uid q.request_id s) s) in
      let (user, s, known, rest) =
        bind-ok (account service uid) f t t1 found
          (atomically-ok (look_session service w uid q stamp) t t1 found e) in
      let here : s ≡ t = account-state service uid t s user known in
      let looked =
        look_found-open stamp user t t1 found
          (rw free at (subst (λ z. f user z ≡ (ok found, t1)) here rest)) in
      (user, subst (λ z. account service uid t ≡ (ok user, z)) here known, looked.0, looked.1)

  issue-new :
      (stamp : ℕ) (response r : Recommended) (t t' : Tables)
      → issue service w uid q stamp response t ≡ (ok (some r), t')
      → find_request uid q.request_id t ≡ none
      → (user : UserRow) × (account service uid t ≡ (ok user, t))
        × (user.revision ≡ response.preference_revision)
        × (response ≡ r)
        × (record t { requests = request_row service w uid q response stamp ∷ t.requests } ≡ t')
  unfolding issue issue_session
  issue-new stamp response r t t' e free =
      let f : UserRow → ActionOn (Option Recommended) =
        (λ u s. issue_found service w uid q stamp response u (find_request uid q.request_id s) s) in
      let (user, s, known, rest) =
        bind-ok (account service uid) f t t' (some r)
          (atomically-ok (issue_session service w uid q stamp response) t t' (some r) e) in
      let here : s ≡ t = account-state service uid t s user known in
      let issued =
        issue_found-new stamp response r user t t'
          (rw free at (subst (λ z. f user z ≡ (ok (some r), t')) here rest)) in
      (
        user,
        subst (λ z. account service uid t ≡ (ok user, z)) here known,
        issued.0,
        issued.1,
        issued.2,
      )

  answer-revision :
      (attempt : ℕ) (l : Look) (r : Recommended)
      → answer service w uid q attempt l ≡ ok r
      → l.revision ≡ r.preference_revision
  unfolding answer
  answer-revision attempt l r e =
      elim (Result-cases (
        select_items service.catalog (service.retrieval attempt uid l.revision l.preferences)
          l.blocked q.k service.policy)) [
            | inr (x, failed) ↦ ground (arith, failed)
            | inl (s, selected) ↦ ground (arith, selected)
          ]

  answer-selection :
      (attempt : ℕ) (l : Look) (r : Recommended)
      → All
          (λ i. (m : Movie) × (movie_of i service.catalog.movies ≡ some m))
          service.catalog.popular
      → answer service w uid q attempt l ≡ ok r
      → IsSelection service.catalog l.blocked q.k r.selection
  unfolding answer
  answer-selection attempt l r known e =
      let (s, selected, h) =
        select_items-IsSelection service.catalog l.blocked
          (service.retrieval attempt uid l.revision l.preferences) q.k service.policy known in
      let made = rw (selected, answer) at e in
      subst (IsSelection service.catalog l.blocked q.k) (ground (arith, made)) h

  -- what an attempt does after it has read
  continue_with-IsFresh :
      (attempt : ℕ) (reader : UserRow) (t0 t' : Tables) (r : Recommended)
      → account service uid t0 ≡ (ok reader, t0)
      → let t1 = w.commits (attempt * 2 + 1) t0 in
        find_request uid q.request_id t1 ≡ none
        → continue_with service w uid q attempt (open_for (look_at uid reader t0)) t0
          ≡ (ok (some r), t')
        → IsFresh attempt r t0 t1 t'
  unfolding continue_with
  continue_with-IsFresh attempt reader t0 t' r known free e =
      let l = look_at uid reader t0 in
      elim (Result-cases (answer service w uid q attempt l)) [
        | inr (x, failed) ↦ ground (arith, failed)
        | inl (response, made) ↦
            let stamp = w.now (attempt * 2 + 1) in
            let t1 = w.commits (attempt * 2 + 1) t0 in
            let (writer, known', fence, this, written) =
              issue-new stamp response r t1 t' (rw (made, continue_with) at e) free in
            let revision : reader.revision ≡ response.preference_revision =
              unfold look_at in answer-revision attempt l response made in
            record {
              reader = reader;
              allowed = known;
              computed = made ∙ ap ok this;
              writer = writer;
              still_allowed = known';
              fenced = fence ∙ sym revision;
              stamp = stamp;
              stored =
                  subst
                    (λ x.
                      t'
                      ≡ record t1 { requests = request_row service w uid q x stamp ∷ t1.requests })
                    this (sym written);
            }
      ]

  -- If no response is stored for the request ID when an attempt reads and when it writes, and it
  -- returns one: the account had consented both times, with the same revision of preferences and outcomes; the
  -- response is computed over what was read, and is what was written. Its items are at most `k`
  -- different available movies; the account had no preference about any of them, and had not saved, watched or
  -- dismissed it.
  pub attempt_once-IsFresh :
      (attempt : ℕ) (t t' : Tables) (r : Recommended)
      → let t0 = w.commits (attempt * 2) t in
        let t1 = w.commits (attempt * 2 + 1) t0 in
        All
          (λ i. (m : Movie) × (movie_of i service.catalog.movies ≡ some m))
          service.catalog.popular
        → find_request uid q.request_id t0 ≡ none
        → find_request uid q.request_id t1 ≡ none
        → attempt_once service w uid q attempt t ≡ (ok (some r), t')
        → IsFresh attempt r t0 t1 t'
          × IsSelection service.catalog (blocked_for uid t0) q.k r.selection
          × All (λ p. IsUntouched uid t0 p.movie.id) r.selection.items
  unfolding attempt_once
  attempt_once-IsFresh attempt t t' r known free0 free1 e =
      let t0 = w.commits (attempt * 2) t in
      let (found, t2, looked, rest) =
        bind-ok (look service w uid q (w.now (attempt * 2))) (continue_with service w uid q attempt)
          t0 t' (some r) e in
      let (reader, allowed, opened, kept) =
        look-open (w.now (attempt * 2)) t0 t2 found looked free0 in
      let f =
        continue_with-IsFresh attempt reader t0 t' r allowed free1 (cc (rest, opened, kept)) in
      let selection : IsSelection service.catalog (blocked_for uid t0) q.k r.selection =
        unfold look_at in answer-selection attempt (look_at uid f.reader t0) r known f.computed in
      (
        f,
        selection,
        All-map (λ p shown. blocked_for-IsUntouched uid t0 p.movie.id shown.1) r.selection.items
            selection.eligible,
      )
