-- ===== src/App/Accounts/Limits.antt =====
-- How many calls the rate limit of recserve_app/db.py lets through.
use recserve.Prelude.{
  ℕ, suc, ◌+◌, ◌-◌, ◌/◌, ◌≡◌, String, Bool, true, false, ◌&&◌, List, [], ◌∷◌, All, count, min, ltb,
  same, same_iff, same_refl, if◌then◌else◌, arith, Bool-cases, inl, inr,
}
use recserve.Exec.{Result, ok, err}
use recserve.App.Schema.{Failure, RateRow, Tables}
use recserve.App.Accounts.{rate, bump_rate, rate_count}

rate_count-bump :
    (key other : String) (window : ℕ) (rows : List RateRow)
    → rate_count key window (bump_rate other window rows)
      ≡ (if same other key then rate_count key window rows + 1 else rate_count key window rows)
unfolding rate_count bump_rate
rate_count-bump key other window [] = ground (arith, same_iff other key)
rate_count-bump key other window (r ∷ rows) = ground (
  arith,
  same_iff other key,
  same_iff r.key key,
  same_iff r.key other,
  rate_count-bump key other window rows,
)

abbrev is_ok : {A : Type 0} → Result Failure A → Bool
is_ok (ok _) = true
is_ok (err _) = false

-- how many of these calls are for `key` and pass: a call is a key and the time
abbrev pub passes : String → ℕ → List (String × ℕ) → Tables → ℕ
passes key limit [] t = 0
passes key limit ((k, stamp) ∷ calls) t =
    let (r, t') = rate k limit stamp t in
    let rest = passes key limit calls t' in if same k key && is_ok r then suc rest else rest

-- the calls of `key` that its window has counted
abbrev pub counted : String → ℕ → Tables → ℕ
counted key window t = rate_count key window t.rate_limits

rate-counted :
    (key k : String) (limit stamp : ℕ) (t : Tables)
    → counted key (stamp / 60000) (rate k limit stamp t).1
      ≡ (if same k key then counted key (stamp / 60000) t + 1 else counted key (stamp / 60000) t)
unfolding rate
rate-counted key k limit stamp t = rate_count-bump key k (stamp / 60000) t.rate_limits

rate-is_ok :
    (key k : String) (limit stamp : ℕ) (t : Tables)
    → same k key ≡ true
    → is_ok (rate k limit stamp t).0 ≡ ltb (counted key (stamp / 60000) t) limit
unfolding rate
rate-is_ok key k limit stamp t h =
    rw ((same_iff k key).0 h)
      (ground (arith, rate_count-bump key key (stamp / 60000) t.rate_limits, same_refl key))

-- Of the calls within one minute, exactly as many pass for a key as its window has left, or all
-- of them, whatever other keys do in between.
pub passes-min :
    (key : String) (limit window : ℕ) (calls : List (String × ℕ)) (t : Tables)
    → All (λ c. c.1 / 60000 ≡ window) calls
    → passes key limit calls t
      ≡ min (count (λ c. same c.0 key) calls) (limit - counted key window t)
passes-min key limit window [] t h = omega arith
passes-min key limit window ((k, stamp) ∷ calls) t (now, h) =
    let t' = (rate k limit stamp t).1 in
    let before = rw now at (rate-counted key k limit stamp t) in
    let rest = passes-min key limit window calls t' h in
    elim (Bool-cases (same k key)) [
      | inl this ↦
          let passed = rw now at (rate-is_ok key k limit stamp t this) in
          elim (Bool-cases (ltb (counted key window t) limit)) [
            | inl room ↦ ground (arith, before, passed, rest)
            | inr full ↦ ground (arith, before, passed, rest)
          ]
      | inr other ↦ ground (arith, before, rest)
    ]
