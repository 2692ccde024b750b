-- ===== src/App/Principals/Logout.antt =====
-- The session of a caller after its logout (recserve_app/api.py).
use Prim.Native.String.{◌++◌ as join}
use recserve.Prelude.{
  ℕ, ◌≡◌, refl, ap, subst, String, Bool, true, false, not, none, some, List, [], ◌∷◌, find?,
  find?-test, keep, same, same_iff, arith, Option-cases, inl, inr,
}
use recserve.Exec.{ok, err, bind-ok, ◌>>=◌}
use recserve.App.Schema.{http_exception, Tables}
use recserve.App.Accounts.{Texts, Principal, authenticate, is_alive, rate}
use recserve.App.Accounts.Login.{authenticate-found, principal_of}
use recserve.App.Principals.{WebRequest, count_mutation, guard, principal, logout}

find?-keep-none :
    {A : Type 0} (p q : A → Bool) (rows : List A)
    → ((r : A) → p r ≡ true → q r ≡ false)
    → find? p (keep q rows) ≡ none
find?-keep-none p q [] h = refl
find?-keep-none p q (r ∷ rows) h = ground (arith, h r, find?-keep-none p q rows h)

module _ (x : Texts) where
  -- The principal of a token has its digest.
  authenticate-token_hash :
      (token : String) (stamp : ℕ) (t : Tables) (actor : Principal)
      → (authenticate x token stamp t).0 ≡ ok actor
      → actor.token_hash ≡ x.hashed token
  authenticate-token_hash token stamp t actor e =
      elim (Option-cases (find? (is_alive x token stamp t) t.sessions)) [
        | inl absent ↦ cc (e, authenticate-found x token stamp t none absent)
        | inr (s, found) ↦
            let right : s.token_hash ≡ x.hashed token = ground (
              arith,
              same_iff s.token_hash (x.hashed token),
              find?-test (is_alive x token stamp t) t.sessions found,
            ) in
            let same_actor : principal_of s ≡ actor =
              ground (arith, e, authenticate-found x token stamp t (some s) found) in
            cc (right, ap (λ a. a.token_hash) same_actor)
      ]

  count_mutation-actor :
      (stamp : ℕ) (actor found : Principal) (t t' : Tables)
      → count_mutation stamp found t ≡ (ok actor, t')
      → found ≡ actor
  unfolding count_mutation
  count_mutation-actor stamp actor found t t' e =
      let (_, s, _, rest) =
        bind-ok (rate (join "mutation:" found.user_id) 60 stamp) (λ _ z. (ok found, z)) t t' actor
          e in
      ground (arith, rest)

  guard-actor :
      (own_origin : String) (r : WebRequest) (stamp : ℕ) (actor found : Principal) (t t' : Tables)
      → guard x own_origin r stamp found t ≡ (ok actor, t')
      → found ≡ actor
  unfolding guard
  guard-actor own_origin r stamp actor found t t' e =
      ground (arith, count_mutation-actor stamp actor found t t')

  -- Once a caller that was admitted has logged out, the token of that session is refused, at any
  -- time and whatever the request was.
  pub logout-authenticate :
      (own_origin : String) (r : WebRequest) (stamp stamp' : ℕ) (t t' : Tables) (actor : Principal)
      → principal x own_origin r stamp t ≡ (ok actor, t')
      → (authenticate x r.session stamp' (logout actor t')).0
        ≡ err (http_exception 401 "Authentication required")
  unfolding principal logout
  logout-authenticate own_origin r stamp stamp' t t' actor e =
      let admitted : (authenticate x r.session stamp >>= guard x own_origin r stamp) t
          ≡ (ok actor, t') =
        ground arith in
      let (found, s, known, rest) =
        bind-ok (authenticate x r.session stamp) (guard x own_origin r stamp) t t' actor admitted in
      let this : found ≡ actor = guard-actor own_origin r stamp actor found s t' rest in
      let hash : actor.token_hash ≡ x.hashed r.session =
        subst (λ a. a.token_hash ≡ x.hashed r.session) this
          (authenticate-token_hash r.session stamp t found (ap (λ p. p.0) known)) in
      authenticate-found x r.session stamp' (logout actor t') none (
        find?-keep-none (is_alive x r.session stamp' t')
          (λ s. not (same s.token_hash actor.token_hash)) t'.sessions
          (λ s alive. rw hash (ground (arith, alive))))
