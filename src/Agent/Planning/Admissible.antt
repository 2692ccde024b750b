-- ===== src/Agent/Planning/Admissible.antt =====
-- The planners of scripts/agent.py give actions of the space.
use recserve.Prelude.{
  ℕ, ◌%◌, ◌≡◌, refl, subst, String, true, false, not, Option, none, some, List, [], ◌∷◌, All, find?,
  get_elem?, length, arith, Bool-cases, Option-cases, inl, inr, ◌⊎◌,
}
use recserve.Prelude.Int.{ℤ}
use recserve.Agent.Space.{
  Knob, ef, retrieve_k, kernel, pin, knob_of, Setting, space, Config, in_space, Action, valid,
  all_actions,
}
use recserve.Agent.Space.Membership.{IsConfig, all_actions-valid, get_elem?-any}
use recserve.Agent.Diagnosis.{Real, Hypothesis}
use recserve.Agent.Planning.{
  is_tried, or_default, stay, plan_heuristic, choice, plan_random, plan_grid, Proposal, setting_of,
  checked_proposal, plan_llm,
}
use recserve.Agent.Planning.Choices.{Holds, plan_heuristic-IsFresh}

-- the planners of the loop give actions of the space
pub plan_heuristic-valid :
    {F : Type 0} (real : Real F) (hyps : List (Hypothesis F)) (tried : List Action) (cfg : Config)
    → IsConfig cfg
    → valid (plan_heuristic real hyps tried cfg) ≡ true
unfolding valid
plan_heuristic-valid real hyps tried cfg inside =
    elim (plan_heuristic-IsFresh real hyps tried cfg) [
      | inl (ok, other) ↦ ok
      | inr (same_plan, exhausted) ↦ rw same_plan (inside ef)
    ]

-- An action of the space that the sweep finds was not tried, and at the end of the sweep all
-- actions were.
untried-valid :
    (tried xs : List Action)
    → All (λ x. valid x ≡ true) xs
    → Holds
        (λ a. (valid a ≡ true) × (is_tried a tried ≡ false))
        (find? (λ x. not (is_tried x tried)) xs)
untried-valid tried [] h = tt
untried-valid tried (x ∷ xs) (h, t) = elim (Bool-cases (is_tried x tried)) [
  | inl old ↦ rw old (untried-valid tried xs t)
  | inr new ↦ rw new (h, new)
]

all_tried :
    (tried xs : List Action)
    → find? (λ a. not (is_tried a tried)) xs ≡ none
    → All (λ a. is_tried a tried ≡ true) xs
all_tried tried [] h = tt
all_tried tried (x ∷ xs) h = elim (Bool-cases (is_tried x tried)) [
  | inl old ↦ (old, all_tried tried xs (ground (arith, h, old)))
  | inr new ↦ absurd (ground (arith, h, new))
]

pub plan_grid-cases :
    (tried : List Action) (cfg : Config)
    → ((valid (plan_grid tried cfg) ≡ true) × (is_tried (plan_grid tried cfg) tried ≡ false))
      ⊎ ((plan_grid tried cfg ≡ stay cfg) × All (λ a. is_tried a tried ≡ true) all_actions)
unfolding plan_grid
plan_grid-cases tried cfg = elim (Option-cases (find? (λ a. not (is_tried a tried)) all_actions)) [
  | inl out ↦ inr (rw (out, plan_grid) refl, all_tried tried all_actions out)
  | inr (a, found) ↦ inl (
      rw (found, plan_grid)
        (subst (Holds (λ a. (valid a ≡ true) × (is_tried a tried ≡ false))) found
          (untried-valid tried all_actions all_actions-valid)))
]

choice-in_space :
    (k : Knob) (draw : ℕ) (v : Setting) → choice draw (space k) ≡ some v → in_space k v ≡ true
unfolding choice in_space
choice-in_space k draw v h = get_elem?-any v (space k) (draw % length (space k)) h

pub plan_random-valid :
    (first second : ℕ) (cfg : Config) → IsConfig cfg → valid (plan_random first second cfg) ≡ true
unfolding valid plan_random space
plan_random-valid first second cfg inside =
    let k = or_default (get_elem? (ef ∷ retrieve_k ∷ kernel ∷ pin ∷ []) (first % 4)) ef in
    elim (Option-cases (choice second (space k))) [
      | inl out ↦ rw (out, plan_random) (inside k)
      | inr (v, found) ↦ rw (found, plan_random) (choice-in_space k second v found)
    ]

-- Whatever a language model answers, the planned action is in the space, if the fallback is.
pub plan_llm-valid :
    (int_of : String → Option ℤ) (proposed : Option Proposal) (fallback : Action)
    → valid fallback ≡ true
    → valid (plan_llm int_of proposed fallback) ≡ true
unfolding plan_llm checked_proposal valid
plan_llm-valid int_of none fallback ok = ok
plan_llm-valid int_of (some p) fallback ok = elim (Option-cases (knob_of p.knob)) [
  | inl unknown ↦ rw (unknown, checked_proposal) ok
  | inr (k, known) ↦
      (let a : Action = record { knob = k; value = setting_of int_of k p.value } in
        elim (Bool-cases (valid a)) [
          | inl inside ↦ rw (known, checked_proposal, inside) inside
          | inr outside ↦ rw (known, checked_proposal, outside) ok
        ])
]
