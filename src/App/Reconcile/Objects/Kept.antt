-- ===== src/App/Reconcile/Objects/Kept.antt =====
-- What a ledger that is read has of the deletions recorded in it (recserve_app/privacy.py).
use recserve.Prelude.{
  ℕ, suc, ◌≤◌, ◌≡◌, refl, sym, ap, ◌∙◌, subst, String, Bool, true, false, Option, List, [], ◌∷◌,
  ◌++◌, any, any-append, length, length-append, same, same_iff, arith, Bool-cases, inl, inr,
}
use recserve.Exec.{Result, ok, err}
use recserve.App.Schema.{Failure}
use recserve.App.Reconcile.Objects.{
  Entry, Body, Objects, key_of, requested, body_of, record_deletion, check_body, read_entry,
  read_page, read_pages, read_all, ◌>>=◌,
}

abbrev pub is_listed : String → Result Failure (List Entry) → Bool
is_listed key (ok entries) = any (λ e. same e.key key) entries
is_listed key (err x) = false

bind-ok :
    {A B : Type 0} (r : Result Failure A) (f : A → Result Failure B) (b : B)
    → (r >>= f) ≡ ok b
    → (a : A) × (r ≡ ok a) × (f a ≡ ok b)
bind-ok (ok a) f b e = (a, refl, e)
bind-ok (err x) f b e = absurd (ground (arith, e))

module _ {S B : Type 0} (o : Objects S B) (s : S) where
  -- an entry whose object is that of `id` is read as `id`
  check_body-id :
      (e : Entry) (id user_id : String) (at : ℕ)
      → check_body o e (body_of id at) ≡ ok user_id
      → user_id ≡ id
  unfolding check_body
  check_body-id e id user_id at h =
      let (canon, known, tested) = bind-ok (o.canonical id) _ user_id h in ground (arith, tested)

  read_entry-id :
      (count : ℕ) (e : Entry) (id user_id : String) (at : ℕ)
      → o.get_object s e.key ≡ ok (o.encrypt (body_of id at))
      → o.decrypt (o.encrypt (body_of id at)) ≡ ok (body_of id at)
      → read_entry o s count e ≡ ok user_id
      → user_id ≡ id
  unfolding read_entry
  read_entry-id count e id user_id at got opened h =
      check_body-id e id user_id at (ground (arith, h, got, opened))

  read_entry-count :
      (count : ℕ) (e : Entry) (user_id : String)
      → read_entry o s count e ≡ ok user_id
      → suc count ≤ 10000
  unfolding read_entry
  read_entry-count count e user_id h = ground (arith, h)

  -- what is read stays read, and the bound stays
  read_page-keeps :
      (entries : List Entry) (result read : List String)
      → length result ≤ 10000
      → read_page o s entries result ≡ ok read
      → ((p : String → Bool) → any p result ≡ true → any p read ≡ true) × (length read ≤ 10000)
  unfolding read_page
  read_page-keeps [] result read h e =
      let this : result ≡ read = ground (arith, e) in
      (
        λ p k. subst (λ l. any p l ≡ true) this k,
        subst (λ (l : List String). length l ≤ 10000) this h,
      )
  read_page-keeps (first ∷ entries) result read h e =
      let (user_id, one, rest) = bind-ok (read_entry o s (length result) first) _ read e in
      let (keeps, bound) =
        read_page-keeps entries (result ++ user_id ∷ []) read
          (ground (
            arith,
            length-append result (user_id ∷ []),
            read_entry-count (length result) first user_id one,
          ))
          rest in
      (λ p k. keeps p (ground (arith, k, any-append p result (user_id ∷ []))), bound)

  module _ (id : String) (at : ℕ)
      (got : o.get_object s (key_of id) ≡ ok (o.encrypt (body_of id at)))
      (opened : o.decrypt (o.encrypt (body_of id at)) ≡ ok (body_of id at)) where
    read_page-listed :
        (entries : List Entry) (result read : List String)
        → length result ≤ 10000
        → any (λ e. same e.key (key_of id)) entries ≡ true
        → read_page o s entries result ≡ ok read
        → any (same id) read ≡ true
    unfolding read_page
    read_page-listed [] result read h k e = absurd (ground (arith, k))
    read_page-listed (first ∷ entries) result read h k e =
        let (user_id, one, rest) = bind-ok (read_entry o s (length result) first) _ read e in
        let bound : length (result ++ user_id ∷ []) ≤ 10000 = ground (
          arith,
          length-append result (user_id ∷ []),
          read_entry-count (length result) first user_id one,
        ) in
        elim (Bool-cases (same first.key (key_of id))) [
          | inr other ↦
              read_page-listed entries (result ++ user_id ∷ []) read bound
                (ground (arith, k, other)) rest
          | inl this ↦
              let is_key : first.key ≡ key_of id = (same_iff first.key (key_of id)).0 this in
              let is_id : user_id ≡ id =
                read_entry-id (length result) first id user_id at (ap (o.get_object s) is_key ∙ got)
                  opened one in
              (read_page-keeps entries (result ++ user_id ∷ []) read bound rest).0 (same id) (
                ground (
                  arith,
                  any-append (same id) result (user_id ∷ []),
                  (same_iff id user_id).1 (sym is_id),
                ))
        ]

  read_pages-keeps :
      (pages : List (Result Failure (List Entry))) (result read : List String)
      → length result ≤ 10000
      → read_pages o s pages result ≡ ok read
      → ((p : String → Bool) → any p result ≡ true → any p read ≡ true) × (length read ≤ 10000)
  unfolding read_pages
  read_pages-keeps [] result read h e =
      let this : result ≡ read = ground (arith, e) in
      (
        λ p k. subst (λ l. any p l ≡ true) this k,
        subst (λ (l : List String). length l ≤ 10000) this h,
      )
  read_pages-keeps (page ∷ pages) result read h e =
      let (entries, here, rest) = bind-ok page _ read e in
      let (mid, one, more) = bind-ok (read_page o s entries result) _ read rest in
      let (keeps, bound) = read_page-keeps entries result mid h one in
      let (keeps', bound') = read_pages-keeps pages mid read bound more in
      (λ p k. keeps' p (keeps p k), bound')

  read_pages-listed :
      (id : String) (at : ℕ)
      → o.get_object s (key_of id) ≡ ok (o.encrypt (body_of id at))
      → o.decrypt (o.encrypt (body_of id at)) ≡ ok (body_of id at)
      → (pages : List (Result Failure (List Entry))) (result read : List String)
      → length result ≤ 10000
      → any (is_listed (key_of id)) pages ≡ true
      → read_pages o s pages result ≡ ok read
      → any (same id) read ≡ true
  unfolding read_pages
  read_pages-listed id at got opened [] result read h k e = absurd (ground (arith, k))
  read_pages-listed id at got opened (page ∷ pages) result read h k e =
      let (entries, here, rest) = bind-ok page _ read e in
      let (mid, one, more) = bind-ok (read_page o s entries result) _ read rest in
      let (keeps, bound) = read_page-keeps entries result mid h one in
      elim (Bool-cases (any (λ e. same e.key (key_of id)) entries)) [
        | inl this ↦
            (read_pages-keeps pages mid read bound more).0 (same id)
              (read_page-listed id at got opened entries result mid h this one)
        | inr other ↦
            read_pages-listed id at got opened pages mid read bound
              (ground (arith, k, ap (is_listed (key_of id)) here, other)) more
      ]

-- If what is put is listed and read back, and the cipher opens what it has closed, a ledger that is read after
-- a deletion was recorded has the account of it, in its canonical form, and at most 10000 accounts.
pub read_all-record_deletion :
    {S B : Type 0} (o : Objects S B)
    (put_listed : (key : String) (b : B) (s s' : S)
      → o.put_object key b s ≡ ok s'
      → any (is_listed key) (o.pages s') ≡ true)
    (put_get : (key : String) (b : B) (s s' : S)
      → o.put_object key b s ≡ ok s'
      → o.get_object s' key ≡ ok b)
    (opens : (body : Body) → o.decrypt (o.encrypt body) ≡ ok body) (user_id : String)
    (requested_ms : Option ℕ) (now : ℕ) (s s' : S) (user_ids : List String)
    → record_deletion o user_id requested_ms now s ≡ ok s'
    → read_all o s' ≡ ok user_ids
    → (id : String) × (o.canonical user_id ≡ ok id)
      × (any (same id) user_ids ≡ true)
      × (length user_ids ≤ 10000)
unfolding record_deletion read_all
read_all-record_deletion o put_listed put_get opens user_id requested_ms now s s' user_ids e read =
    let (id, canon, stored) = bind-ok (o.canonical user_id) _ s' e in
    let at = requested requested_ms now in
    let body = o.encrypt (body_of id at) in
    (
      id,
      canon,
      read_pages-listed o s' id at (put_get (key_of id) body s s' stored) (opens (body_of id at))
          (o.pages s') [] user_ids (ground arith) (put_listed (key_of id) body s s' stored) read,
      (read_pages-keeps o s' (o.pages s') [] user_ids (ground arith) read).1,
    )
