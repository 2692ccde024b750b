-- ===== src/App/Identity.antt =====
-- The identity that a code gives: `exchange` of recserve_app/oidc.py. The token endpoint, the keys and the
-- validation of an ID token are parameters.
use recserve.Prelude.{
  ℕ, ◌-◌, String, Bool, ◌&&◌, not, Option, none, some, length, ltb, same, if◌then◌else◌,
}
use recserve.Pilot.Payload.{codes}

-- the claims of a validated token that are read; a value of another type is `none`
pub record Claims : Type 0 where
  pub email_verified : Bool
  pub email : Option String
  pub sub : Option String

-- `fetch_token` by code and verifier, `fetch_keys` at a time, and the decoded and validated claims by token,
-- keys and nonce; `none` is an exception
pub record Provider (T K : Type 0) : Type 0 where
  pub fetch_token : String → String → Option T
  pub fetch_keys : ℕ → Option K
  pub validate : T → K → String → Option Claims

-- `self.keys` and `self.keys_at`, in seconds
pub record KeyCache (K : Type 0) : Type 0 where
  pub keys : Option K
  pub keys_at : ℕ

module _ {T K : Type 0} (p : Provider T K) where
  -- the keys for a validation at `now`, fetched if there are none or they are older than an hour
  unfoldable pub keys_for : ℕ → KeyCache K → Option K × KeyCache K
  keys_for now cache =
      let fetched : Option K × KeyCache K = (elim (p.fetch_keys now) [
        | none ↦ (none, cache)
        | some keys ↦ (some keys, record { keys = some keys; keys_at = now })
      ]) in
      elim cache.keys [
        | none ↦ fetched
        | some keys ↦ if ltb 3600 (now - cache.keys_at) then fetched else (some keys, cache)
      ]

  -- the tests of the claims
  unfoldable pub identity_of : Claims → Option (String × String)
  identity_of c = elim c.email [
    | none ↦ none
    | some email ↦ elim c.sub [
      | none ↦ none
      | some sub ↦
          if c.email_verified
            && (not (same sub "")
                && (not (ltb 255 (length (codes sub))) && not (ltb 320 (length (codes email)))))
          then some (sub, email)
          else none
    ]
  ]

  unfoldable pub validated : Option Claims → Option (String × String)
  validated none = none
  validated (some claims) = identity_of claims

  unfoldable pub with_keys :
      T → String → Option K × KeyCache K → Option (String × String) × KeyCache K
  with_keys token nonce (none, cache) = (none, cache)
  with_keys token nonce (some keys, cache) = (validated (p.validate token keys nonce), cache)

  -- `exchange`
  unfoldable pub exchange :
      String → String → String → ℕ → KeyCache K → Option (String × String) × KeyCache K
  exchange code nonce verifier now cache = elim (p.fetch_token code verifier) [
    | none ↦ (none, cache)
    | some token ↦ with_keys token nonce (keys_for now cache)
  ]
