-- ===== src/Agent/Space/Membership.antt =====
-- What stays in the action space of scripts/agent.py.
use recserve.Prelude.{
  ℕ, zero, suc, ◌<◌, ◌≡◌, refl, true, false, none, some, List, [], ◌∷◌, ◌++◌, any, All, All-append,
  get_elem?, length, same, same_iff, same_refl, arith, Option-cases, inl, inr,
}
use recserve.Prelude.Int.{pos, negsuc}
use recserve.Agent.Space.{
  Knob, ef, retrieve_k, kernel, pin, Setting, number, word, eq_setting, space, Config,
  default_config, get, set, Action, in_space, valid, Direction, down, up, index_of, moved,
  index_or_zero, neighbour, all_actions, actions_of,
}

pub eq_setting_refl : (v : Setting) → eq_setting v v ≡ true
unfolding eq_setting
eq_setting_refl (number (pos n)) = ground arith
eq_setting_refl (number (negsuc n)) = ground arith
eq_setting_refl (word s) = same_refl s

pub eq_setting_iff : (a b : Setting) → eq_setting a b ≡ true → a ≡ b
unfolding eq_setting
eq_setting_iff (number (pos n)) (number (pos k)) h = ground arith
eq_setting_iff (number (pos n)) (number (negsuc k)) h = ground arith
eq_setting_iff (number (negsuc n)) (number (pos k)) h = ground arith
eq_setting_iff (number (negsuc n)) (number (negsuc k)) h = ground arith
eq_setting_iff (number n) (word s) h = cc
eq_setting_iff (word s) (number n) h = cc
eq_setting_iff (word a) (word b) h = ground (arith, same_iff a b)

-- every knob has a value of the space
abbrev pub IsConfig : Config → Type 0
IsConfig c = (k : Knob) → in_space k (get k c) ≡ true

pub get_elem?-any :
    (v : Setting) (xs : List Setting) (i : ℕ)
    → get_elem? xs i ≡ some v
    → any (eq_setting v) xs ≡ true
get_elem?-any v [] i h = cc
get_elem?-any v (x ∷ xs) zero h = ground (arith, eq_setting_refl v)
get_elem?-any v (x ∷ xs) (suc i) h = ground (arith, get_elem?-any v xs i)

pub get_elem?-none :
    (xs : List Setting) (i : ℕ) → i < length xs → get_elem? xs i ≡ none → false ≡ true
get_elem?-none [] i h e = absurd (omega arith)
get_elem?-none (x ∷ xs) zero h e = cc
get_elem?-none (x ∷ xs) (suc i) h e = get_elem?-none xs i (omega (arith, h)) e

space-length : (k : Knob) → 0 < length (space k)
unfolding space
space-length ef = omega arith
space-length retrieve_k = omega arith
space-length kernel = omega arith
space-length pin = omega arith

moved-lt : (d : Direction) (n i : ℕ) → 0 < n → moved d n i < n
moved-lt down n i h = omega (arith, h)
moved-lt up n i h = omega (arith, h)

-- The neighbour of any value is a value of the space.
pub neighbour-in_space :
    (k : Knob) (current : Setting) (d : Direction) → in_space k (neighbour k current d) ≡ true
unfolding in_space neighbour space
neighbour-in_space k current d =
    let i = index_or_zero (index_of current (space k)) in
    let j = moved d (length (space k)) i in
    let inside : j < length (space k) = moved-lt d (length (space k)) i (space-length k) in
    elim (Option-cases (get_elem? (space k) j)) [
      | inl out ↦ cc (get_elem?-none (space k) j inside out)
      | inr (v, found) ↦ rw (found, neighbour) (get_elem?-any v (space k) j found)
    ]

pub set-IsConfig :
    (k : Knob) (v : Setting) (c : Config) → in_space k v ≡ true → IsConfig c → IsConfig (set k v c)
set-IsConfig ef v c h valid_c ef = h
set-IsConfig ef v c h valid_c retrieve_k = valid_c retrieve_k
set-IsConfig ef v c h valid_c kernel = valid_c kernel
set-IsConfig ef v c h valid_c pin = valid_c pin
set-IsConfig retrieve_k v c h valid_c ef = valid_c ef
set-IsConfig retrieve_k v c h valid_c retrieve_k = h
set-IsConfig retrieve_k v c h valid_c kernel = valid_c kernel
set-IsConfig retrieve_k v c h valid_c pin = valid_c pin
set-IsConfig kernel v c h valid_c ef = valid_c ef
set-IsConfig kernel v c h valid_c retrieve_k = valid_c retrieve_k
set-IsConfig kernel v c h valid_c kernel = h
set-IsConfig kernel v c h valid_c pin = valid_c pin
set-IsConfig pin v c h valid_c ef = valid_c ef
set-IsConfig pin v c h valid_c retrieve_k = valid_c retrieve_k
set-IsConfig pin v c h valid_c kernel = valid_c kernel
set-IsConfig pin v c h valid_c pin = h

pub default_config-IsConfig : IsConfig default_config
unfolding same in_space space eq_setting
default_config-IsConfig ef = refl
default_config-IsConfig retrieve_k = refl
default_config-IsConfig kernel = refl
default_config-IsConfig pin = refl

-- a value whose every earlier neighbour in the list is in the space too
pub actions_of-valid :
    (k : Knob) (vs : List Setting)
    → ((v : Setting) → any (eq_setting v) vs ≡ true → in_space k v ≡ true)
    → All (λ a. valid a ≡ true) (actions_of k vs)
unfolding valid in_space
actions_of-valid k [] h = tt
actions_of-valid k (v ∷ vs) h = (
  h v (ground (arith, eq_setting_refl v)),
  actions_of-valid k vs (λ w e. h w (ground (arith, e))),
)

-- Every action of the sweep is in the space.
pub all_actions-valid : All (λ a. valid a ≡ true) all_actions
unfolding all_actions in_space
all_actions-valid =
    let P = λ (a : Action). valid a ≡ true in
    let last_two = actions_of kernel (space kernel) ++ actions_of pin (space pin) in
    let last_three = actions_of retrieve_k (space retrieve_k) ++ last_two in
    All-append P (actions_of ef (space ef)) last_three (actions_of-valid ef (space ef) (λ v h. h)) (
      All-append P (actions_of retrieve_k (space retrieve_k)) last_two
        (actions_of-valid retrieve_k (space retrieve_k) (λ v h. h))
        (All-append P (actions_of kernel (space kernel)) (actions_of pin (space pin))
          (actions_of-valid kernel (space kernel) (λ v h. h))
          (actions_of-valid pin (space pin) (λ v h. h))))
