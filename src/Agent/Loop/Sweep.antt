-- ===== src/Agent/Loop/Sweep.antt =====
-- The actions that the tuning loop of scripts/agent.py has tried.
use recserve.Prelude.{
  ℕ, zero, suc, ◌-◌, ◌≤◌, ◌<◌, ◌≡◌, refl, sym, ◌∙◌, subst, Bool, true, false, not, none, List, [],
  ◌∷◌, ◌++◌, any-append, count, length, All, find?, arith, if◌then◌else◌, Bool-cases, Option-cases,
  inl, inr,
}
use recserve.Agent.Space.{
  Knob, ef, retrieve_k, kernel, pin, knob_eq, Config, set, same_config, Action, valid, all_actions,
  same_action, space,
}
use recserve.Agent.Space.Membership.{eq_setting_refl}
use recserve.Agent.Diagnosis.{Real}
use recserve.Agent.Gate.{Gate}
use recserve.Agent.Planning.{is_tried, plan_grid}
use recserve.Agent.Planning.Choices.{Holds}
use recserve.Agent.Planning.Admissible.{plan_grid-cases}
use recserve.Agent.Loop.{
  Entry, State, grid, Environment, tried_of, plan, measure, note, execute, iterate, iterations,
}

module _ {A : Type 0} (p q : A → Bool) (implies : (x : A) → q x ≡ true → p x ≡ true) where
  count-le : (xs : List A) → count q xs ≤ count p xs
  count-le [] = omega arith
  count-le (x ∷ xs) = elim (Bool-cases (q x)) [
    | inl held ↦ rw (held, implies x held) (omega (arith, count-le xs))
    | inr failed ↦ elim (Bool-cases (p x)) [
      | inl held ↦ rw (failed, held) (omega (arith, count-le xs))
      | inr out ↦ rw (failed, out) (count-le xs)
    ]
  ]

  count-lt : (xs : List A) → Holds (λ a. q a ≡ false → count q xs < count p xs) (find? p xs)
  count-lt [] = tt
  count-lt (x ∷ xs) = elim (Bool-cases (p x)) [
    | inl held ↦ rw held (λ out. rw out (omega (arith, count-le xs)))
    | inr failed ↦ elim (Bool-cases (q x)) [
      | inl held ↦ absurd (ground (arith, failed, implies x held))
      | inr out ↦ rw (failed, out) (count-lt xs)
    ]
  ]

knob_eq_refl : (k : Knob) → knob_eq k k ≡ true
knob_eq_refl ef = refl
knob_eq_refl retrieve_k = refl
knob_eq_refl kernel = refl
knob_eq_refl pin = refl

same_action_refl : (a : Action) → same_action a a ≡ true
same_action_refl a = rw (knob_eq_refl a.knob, eq_setting_refl a.value) refl

-- the actions of the sweep that were not tried
abbrev pub untried : List Action → List Action → ℕ
untried tried = count λ a. not (is_tried a tried)

tried-append :
    (xs ys : List Action) (a : Action) → is_tried a xs ≡ true → is_tried a (xs ++ ys) ≡ true
tried-append xs ys a h = any-append (same_action a) xs ys ∙ rw h refl

still_untried :
    (xs ys : List Action) (a : Action)
    → not (is_tried a (xs ++ ys)) ≡ true
    → not (is_tried a xs) ≡ true
still_untried xs ys a h = elim (Bool-cases (is_tried a xs)) [
  | inl old ↦ absurd (ground (arith, h, tried-append xs ys a old))
  | inr new ↦ rw new refl
]

now_tried : (xs : List Action) (a : Action) → is_tried a (xs ++ (a ∷ [])) ≡ true
now_tried xs a = ground (arith, any-append (same_action a) xs (a ∷ []), same_action_refl a)

count-none : {A : Type 0} (p : A → Bool) (xs : List A) → find? p xs ≡ none → count p xs ≡ 0
count-none p [] h = refl
count-none p (x ∷ xs) h = ground (arith, count-none p xs)

count-length : {A : Type 0} (p : A → Bool) (xs : List A) → count p xs ≤ length xs
count-length p [] = omega arith
count-length p (x ∷ xs) = ground (arith, count-length p xs)

All-untried :
    (tried xs : List Action) → All (λ a. is_tried a tried ≡ true) xs → untried tried xs ≡ 0
All-untried tried [] h = refl
All-untried tried (x ∷ xs) (h, t) = rw h (All-untried tried xs t)

untried-All :
    (tried xs : List Action) → untried tried xs ≡ 0 → All (λ a. is_tried a tried ≡ true) xs
untried-All tried [] h = tt
untried-All tried (x ∷ xs) h = elim (Bool-cases (is_tried x tried)) [
  | inl old ↦ (old, untried-All tried xs (ground (arith, h, old)))
  | inr new ↦ absurd (ground (arith, h, new))
]

plan_grid-untried :
    (tried : List Action) (cfg : Config)
    → untried (tried ++ (plan_grid tried cfg ∷ [])) all_actions ≤ untried tried all_actions - 1
unfolding plan_grid all_actions
plan_grid-untried tried cfg =
    let p = λ (x : Action). not (is_tried x tried) in
    elim (Option-cases (find? p all_actions)) [
      | inl out ↦
          (let q = λ (x : Action). not (is_tried x (tried ++ (plan_grid tried cfg ∷ []))) in
            omega (
              arith,
              count-none p all_actions out,
              count-le p q (still_untried tried (plan_grid tried cfg ∷ [])) all_actions,
            ))
      | inr (a, found) ↦
          (let q = λ (x : Action). not (is_tried x (tried ++ (a ∷ []))) in
            let lower : count q all_actions < count p all_actions =
              subst (Holds (λ x. q x ≡ false → count q all_actions < count p all_actions)) found
                (count-lt p q (still_untried tried (a ∷ [])) all_actions)
                (rw (now_tried tried a) refl) in
            rw (found, plan_grid) (omega (arith, lower)))
    ]

tried_of-append :
    {F : Type 0} (es : List (Entry F)) (e : Entry F)
    → tried_of (es ++ (e ∷ [])) ≡ tried_of es ++ (e.action ∷ [])
tried_of-append [] e = refl
tried_of-append (x ∷ es) e = rw (tried_of-append es e)

all_actions-length : length all_actions ≡ 23
unfolding all_actions space
all_actions-length = refl

untried-le : (tried : List Action) → untried tried all_actions ≤ 23
untried-le tried =
    omega (arith, count-length (λ a. not (is_tried a tried)) all_actions, all_actions-length)

module _ {F : Type 0} (real : Real F) (env : Environment F) (gate : Gate F)
    (confirm_repeats : ℕ) where
  execute-history :
      (it : ℕ) (a : Action) (s : State F)
      → tried_of (execute real env gate confirm_repeats it a s).history
        ≡ (if valid a then tried_of s.history ++ (a ∷ []) else tried_of s.history)
  unfolding execute note measure
  execute-history it a s = elim (Bool-cases (valid a)) [
    | inr outside ↦ rw outside refl
    | inl ok ↦ elim (Bool-cases (same_config (set a.knob a.value s.best_cfg) s.best_cfg)) [
      | inl equal ↦ rw (ok, equal) (tried_of-append s.history _)
      | inr other ↦ rw (ok, other) (tried_of-append s.history _)
    ]
  ]

  -- an iteration of the sweep lowers what is left
  grid-untried :
      (it : ℕ) (s : State F)
      → untried (tried_of (iterate real env grid gate confirm_repeats it s).history) all_actions
        ≤ untried (tried_of s.history) all_actions - 1
  unfolding plan
  grid-untried it s =
      let tried = tried_of s.history in
      let a = plan_grid tried s.best_cfg in
      subst (λ tried_now. untried tried_now all_actions ≤ untried tried all_actions - 1)
        (sym (execute-history it a s))
        (elim (Bool-cases (valid a)) [
          | inl ok ↦ rw ok (plan_grid-untried tried s.best_cfg)
          | inr outside ↦ rw outside (elim (plan_grid-cases tried s.best_cfg) [
            | inl (ok, new) ↦ absurd (cc (ok, outside))
            | inr (stays, exhausted) ↦ omega (arith, All-untried tried all_actions exhausted)
          ])
        ])

  pub grid-iterations :
      (n it : ℕ) (s : State F)
      → untried
          (tried_of (iterations real env grid gate confirm_repeats n it s).history)
          all_actions
        ≤ untried (tried_of s.history) all_actions - n
  unfolding iterations
  grid-iterations zero it s = omega arith
  grid-iterations (suc n) it s = omega (
    arith,
    grid-untried it s,
    grid-iterations n (suc it) (iterate real env grid gate confirm_repeats it s),
  )

  -- the number of actions in the space
  pub grid-exhausted :
      (n it : ℕ) (s : State F)
      → 23 ≤ n
      → All
          (λ a.
            is_tried a (tried_of (iterations real env grid gate confirm_repeats n it s).history)
            ≡ true)
          all_actions
  grid-exhausted n it s enough =
      let last = tried_of (iterations real env grid gate confirm_repeats n it s).history in
      untried-All last all_actions
        (omega (arith, enough, untried-le (tried_of s.history), grid-iterations n it s))
