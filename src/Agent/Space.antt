-- ===== src/Agent/Space.antt =====
-- The action space, the configurations and the measurements of scripts/agent.py.
pub mod Membership
use recserve.Prelude.{
  ℕ, zero, suc, ◌-◌, min, String, Bool, true, false, ◌&&◌, not, Option, none, some, List, [], ◌∷◌,
  ◌++◌, any, map, get_elem?, length, same, if◌then◌else◌,
}
use recserve.Prelude.Int.{ℤ, pos, eq_ℤ}

pub data Knob : Type 0 where
  ef retrieve_k kernel pin : Knob

abbrev pub knob_eq : Knob → Knob → Bool
knob_eq ef ef = true
knob_eq retrieve_k retrieve_k = true
knob_eq kernel kernel = true
knob_eq pin pin = true
knob_eq _ _ = false

-- the keys of ACTION_SPACE as texts
unfoldable pub knob_of : String → Option Knob
knob_of name =
    if same name "ef"
    then some ef
    else if same name "retrieve_k"
    then some retrieve_k
    else if same name "kernel"
    then some kernel
    else if same name "pin"
    then some pin
    else none

-- a value of a knob
pub data Setting : Type 0 where
  number : ℤ → Setting
  word : String → Setting

unfoldable pub eq_setting : Setting → Setting → Bool
eq_setting (number a) (number b) = eq_ℤ a b
eq_setting (word a) (word b) = same a b
eq_setting _ _ = false

abbrev pub numbers : List ℕ → List Setting
numbers = map λ n. number (pos n)

-- ACTION_SPACE
unfoldable pub space : Knob → List Setting
space ef = numbers (16 ∷ 24 ∷ 32 ∷ 48 ∷ 64 ∷ 96 ∷ 128 ∷ 192 ∷ 256 ∷ [])
space retrieve_k = numbers (10 ∷ 16 ∷ 24 ∷ 32 ∷ 48 ∷ 64 ∷ 96 ∷ 128 ∷ [])
space kernel = word "scalar" ∷ word "simd" ∷ word "blocked" ∷ word "int8" ∷ []
space pin = numbers (0 ∷ 1 ∷ [])

-- A configuration has the four knobs. Other keys of a starting configuration are carried along by
-- the source, and reach nothing.
pub record Config : Type 0 where
  pub ef : Setting
  pub retrieve_k : Setting
  pub kernel : Setting
  pub pin : Setting

abbrev pub default_config : Config
default_config = record {
  ef = number (pos 64);
  retrieve_k = number (pos 64);
  kernel = word "simd";
  pin = number (pos 0);
}

abbrev pub get : Knob → Config → Setting
get ef c = c.ef
get retrieve_k c = c.retrieve_k
get kernel c = c.kernel
get pin c = c.pin

abbrev pub set : Knob → Setting → Config → Config
set ef v c = record c { ef = v }
set retrieve_k v c = record c { retrieve_k = v }
set kernel v c = record c { kernel = v }
set pin v c = record c { pin = v }

unfoldable pub same_config : Config → Config → Bool
same_config a b =
    eq_setting a.ef b.ef
    && (eq_setting a.retrieve_k b.retrieve_k
        && (eq_setting a.kernel b.kernel && eq_setting a.pin b.pin))

-- `cfg.update(start_config)`
unfoldable pub update : Config → List (Knob × Setting) → Config
update c [] = c
update c ((k, v) ∷ overrides) = update (set k v c) overrides

pub record Action : Type 0 where
  pub knob : Knob
  pub value : Setting

unfoldable pub in_space : Knob → Setting → Bool
in_space k v = any (eq_setting v) (space k)

-- `Action.valid`
unfoldable pub valid : Action → Bool
unfolding in_space
valid a = in_space a.knob a.value

pub data Direction : Type 0 where
  down up : Direction

-- `space.index(cur)`
unfoldable pub index_of : Setting → List Setting → Option ℕ
index_of v [] = none
index_of v (x ∷ xs) =
    if eq_setting x v then some 0 else elim (index_of v xs) [ none ↦ none | some i ↦ some (suc i) ]

-- `max(0, min(len(space) - 1, i + direction))`
abbrev pub moved : Direction → ℕ → ℕ → ℕ
moved down n i = min (n - 1) (i - 1)
moved up n i = min (n - 1) (suc i)

abbrev pub index_or_zero : Option ℕ → ℕ
index_or_zero none = 0
index_or_zero (some i) = i

-- `_neighbour`; no list of the space is empty, so that the index is in range
unfoldable pub neighbour : Knob → Setting → Direction → Setting
neighbour k current d =
    elim (get_elem? (space k)
      (moved d (length (space k)) (index_or_zero (index_of current (space k))))) [
        | none ↦ current
        | some v ↦ v
      ]

-- the pairs of `plan_grid`, in their order
abbrev pub actions_of : Knob → List Setting → List Action
actions_of k = map λ v. record { knob = k; value = v }

unfoldable pub all_actions : List Action
unfolding space
all_actions =
    actions_of ef (space ef)
    ++ (actions_of retrieve_k (space retrieve_k)
        ++ (actions_of kernel (space kernel) ++ actions_of pin (space pin)))

abbrev pub same_action : Action → Action → Bool
same_action a b = knob_eq a.knob b.knob && eq_setting a.value b.value
