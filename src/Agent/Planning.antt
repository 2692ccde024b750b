-- ===== src/Agent/Planning.antt =====
-- The planners of scripts/agent.py. Random draws, the answers of a language model and `int` are
-- parameters.
pub mod Choices
pub mod Admissible
use recserve.Prelude.{
  ℕ, zero, suc, ◌%◌, String, Bool, true, false, ◌&&◌, ◌||◌, not, Option, none, some, List, [], ◌∷◌,
  any, map, find?, get_elem?, length, same, if◌then◌else◌,
}
use recserve.Prelude.Int.{ℤ, pos, eq_ℤ}
use recserve.Pilot.Model.{Floats}
use recserve.Agent.Space.{
  Knob, ef, retrieve_k, kernel, pin, knob_of, Setting, number, word, eq_setting, space, Config, get,
  Action, valid, Direction, down, up, neighbour, actions_of, all_actions, same_action,
}
use recserve.Agent.Diagnosis.{
  Real, Hypothesis, Cause, retrieve_dominates, scoring_dominates, feature_store_wait,
  measurement_unstable, recall_headroom, recall_violation, fraction,
}

-- `(knob, value) in tried`
abbrev pub is_tried : Action → List Action → Bool
is_tried a tried = any (same_action a) tried

-- `if (k, v) not in tried and v != cfg[k]: return Action(k, v)`
unfoldable pub fresh_move : Knob → Setting → List Action → Config → Option Action
fresh_move k v tried cfg =
    let a : Action = record { knob = k; value = v } in
    if not (is_tried a tried) && not (eq_setting v (get k cfg)) then some a else none

-- the first value of a sweep that is not the current one and not tried
unfoldable pub sweep : Knob → List Setting → List Action → Config → Option Action
sweep k vs tried cfg =
    find? (λ a. not (eq_setting a.value (get k cfg)) && not (is_tried a tried)) (actions_of k vs)

abbrev pub or_else : {A : Type 0} → Option A → Option A → Option A
or_else (some a) other = some a
or_else none other = other

abbrev pub or_default : {A : Type 0} → Option A → A → A
or_default (some a) other = a
or_default none other = other

-- `not cfg["pin"]`
abbrev pub is_unset : Setting → Bool
is_unset (number n) = eq_ℤ n (pos 0)
is_unset (word s) = same s ""

abbrev pub stay : Config → Action
stay cfg = record { knob = ef; value = get ef cfg }

module _ {F : Type 0} (real : Real F) where
  open real.floats use {less, of_ℕ}

  -- whether the evidence has more than 0.01 of headroom
  abbrev has_room : Option F → Bool
  has_room none = less (fraction real 1 100) (of_ℕ 0)
  has_room (some room) = less (fraction real 1 100) room

  -- the rule that a cause with its evidence fires, if any
  unfoldable pub rule_for : Cause → Option F → List Action → Config → Option Action
  rule_for recall_violation room tried cfg = fresh_move ef (neighbour ef (get ef cfg) up) tried cfg
  rule_for retrieve_dominates room tried cfg =
      if has_room room then fresh_move ef (neighbour ef (get ef cfg) down) tried cfg else none
  rule_for recall_headroom room tried cfg =
      if has_room room then fresh_move ef (neighbour ef (get ef cfg) down) tried cfg else none
  rule_for scoring_dominates room tried cfg =
      fresh_move retrieve_k (neighbour retrieve_k (get retrieve_k cfg) down) tried cfg
  rule_for measurement_unstable room tried cfg =
      let a : Action = record { knob = pin; value = number (pos 1) } in
      if is_unset (get pin cfg) && not (is_tried a tried) then some a else none
  rule_for feature_store_wait room tried cfg = none

  unfoldable pub first_rule : List (Hypothesis F) → List Action → Config → Option Action
  first_rule [] tried cfg = none
  first_rule (h ∷ hyps) tried cfg =
      or_else (rule_for h.name h.headroom tried cfg) (first_rule hyps tried cfg)

  -- `plan_heuristic`
  unfoldable pub plan_heuristic : List (Hypothesis F) → List Action → Config → Action
  plan_heuristic hyps tried cfg =
      or_default
        (or_else (first_rule hyps tried cfg)
          (or_else (sweep kernel (space kernel) tried cfg) (sweep ef (space ef) tried cfg)))
        (stay cfg)

-- `rng.choice`, from a draw
unfoldable pub choice : ℕ → List Setting → Option Setting
choice draw vs = get_elem? vs (draw % length vs)

-- `plan_random`, from two draws
unfoldable pub plan_random : ℕ → ℕ → Config → Action
plan_random first second cfg =
    let k = or_default (get_elem? (ef ∷ retrieve_k ∷ kernel ∷ pin ∷ []) (first % 4)) ef in
    record { knob = k; value = or_default (choice second (space k)) (get k cfg) }

-- `plan_grid`
unfoldable pub plan_grid : List Action → Config → Action
plan_grid tried cfg = or_default (find? (λ a. not (is_tried a tried)) all_actions) (stay cfg)

-- the fields of a PlannedAction that decide
pub record Proposal : Type 0 where
  pub knob : String
  pub value : String

-- `int(raw)` on the knobs whose values are integers, and the text itself elsewhere
unfoldable pub setting_of : (String → Option ℤ) → Knob → String → Setting
setting_of int_of kernel raw = word raw
setting_of int_of k raw = elim (int_of raw) [ none ↦ word raw | some n ↦ number n ]

-- a proposal that is inside the action space
unfoldable pub checked_proposal : (String → Option ℤ) → Proposal → Option Action
checked_proposal int_of p = elim (knob_of p.knob) [
  | none ↦ none
  | some k ↦
      (let a : Action = record { knob = k; value = setting_of int_of k p.value } in
        if valid a then some a else none)
]

-- `plan_llm`; `proposed` is what the provider answers, `none` without a key or after an exception,
-- and `fallback` the action of `plan_heuristic`
unfoldable pub plan_llm : (String → Option ℤ) → Option Proposal → Action → Action
plan_llm int_of none fallback = fallback
plan_llm int_of (some p) fallback = or_default (checked_proposal int_of p) fallback
