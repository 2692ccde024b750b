-- ===== src/Agent/Planning/Choices.antt =====
-- What the planners of scripts/agent.py choose.
use recserve.Prelude.{
  ◌≡◌, refl, subst, Bool, true, false, ◌||◌, Option, none, some, List, [], ◌∷◌, any, All, arith,
  if◌then◌else◌, Bool-cases, Option-cases, inl, inr, ◌⊎◌,
}
use recserve.Prelude.Int.{pos, negsuc}
use recserve.Agent.Space.{
  Knob, ef, retrieve_k, kernel, pin, Setting, number, word, eq_setting, space, Config, get,
  in_space, Action, valid, down, up, neighbour,
}
use recserve.Agent.Space.Membership.{neighbour-in_space, eq_setting_refl}
use recserve.Agent.Diagnosis.{
  Real, Hypothesis, Cause, retrieve_dominates, scoring_dominates, feature_store_wait,
  measurement_unstable, recall_headroom, recall_violation,
}
use recserve.Agent.Planning.{
  is_tried, fresh_move, sweep, or_else, is_unset, stay, has_room, rule_for, first_rule,
  plan_heuristic,
}

-- an action of the space that was not tried and that changes the configuration
abbrev pub IsFresh : List Action → Config → Action → Type 0
IsFresh tried cfg a =
    (valid a ≡ true) × ((is_tried a tried ≡ false) × (eq_setting a.value (get a.knob cfg) ≡ false))

abbrev pub Holds : {A : Type 0} → (A → Type 0) → Option A → Type 0
Holds P none = Unit
Holds P (some a) = P a

or_else-Holds :
    {A : Type 0} (P : A → Type 0) (o p : Option A) → Holds P o → Holds P p → Holds P (or_else o p)
or_else-Holds P none p h k = k
or_else-Holds P (some a) p h k = h

fresh_move-IsFresh :
    (k : Knob) (v : Setting) (tried : List Action) (cfg : Config)
    → in_space k v ≡ true
    → Holds (IsFresh tried cfg) (fresh_move k v tried cfg)
unfolding fresh_move valid
fresh_move-IsFresh k v tried cfg inside =
    let a : Action = record { knob = k; value = v } in
    elim (Bool-cases (is_tried a tried)) [
      | inl old ↦ rw old tt
      | inr new ↦ elim (Bool-cases (eq_setting v (get k cfg))) [
        | inl equal ↦ rw (new, equal) tt
        | inr other ↦ rw (new, other) (inside, (new, other))
      ]
    ]

sweep-IsFresh :
    (k : Knob) (vs : List Setting) (tried : List Action) (cfg : Config)
    → ((v : Setting) → any (eq_setting v) vs ≡ true → in_space k v ≡ true)
    → Holds (IsFresh tried cfg) (sweep k vs tried cfg)
unfolding sweep valid
sweep-IsFresh k [] tried cfg inside = tt
sweep-IsFresh k (v ∷ vs) tried cfg inside =
    let a : Action = record { knob = k; value = v } in
    let rest = sweep-IsFresh k vs tried cfg (λ w h. inside w (ground (arith, h))) in
    elim (Bool-cases (eq_setting v (get k cfg))) [
      | inl equal ↦ rw equal rest
      | inr other ↦ elim (Bool-cases (is_tried a tried)) [
        | inl old ↦ rw (other, old) rest
        | inr new ↦ rw (other, new) (inside v (ground (arith, eq_setting_refl v)), (new, other))
      ]
    ]

-- What a sweep of all values of a knob leaves out was tried, or is the current value.
sweep-none :
    (k : Knob) (vs : List Setting) (tried : List Action) (cfg : Config)
    → sweep k vs tried cfg ≡ none
    → All
        (λ v. (eq_setting v (get k cfg) || is_tried (record { knob = k; value = v }) tried) ≡ true)
        vs
unfolding sweep
sweep-none k [] tried cfg h = tt
sweep-none k (v ∷ vs) tried cfg h =
    let a : Action = record { knob = k; value = v } in
    elim (Bool-cases (eq_setting v (get k cfg))) [
      | inl equal ↦ (rw equal refl, sweep-none k vs tried cfg (ground (arith, h, equal)))
      | inr other ↦ elim (Bool-cases (is_tried a tried)) [
        | inl old ↦
            (rw (other, old) refl, sweep-none k vs tried cfg (ground (arith, h, other, old)))
        | inr new ↦ absurd (ground (arith, h, other, new))
      ]
    ]

if-narrower-IsFresh :
    (b : Bool) (tried : List Action) (cfg : Config)
    → Holds
        (IsFresh tried cfg)
        (if b then fresh_move ef (neighbour ef (get ef cfg) down) tried cfg else none)
if-narrower-IsFresh true tried cfg =
    fresh_move-IsFresh ef (neighbour ef (get ef cfg) down) tried cfg
      (neighbour-in_space ef (get ef cfg) down)
if-narrower-IsFresh false tried cfg = tt

pinned-in_space : valid (record { knob = pin; value = number (pos 1) }) ≡ true
unfolding valid in_space space eq_setting
pinned-in_space = refl

unset-differs : (v : Setting) → is_unset v ≡ true → eq_setting (number (pos 1)) v ≡ false
unfolding eq_setting
unset-differs (number (pos n)) h = ground (arith, h)
unset-differs (number (negsuc n)) h = ground (arith, h)
unset-differs (word s) h = refl

module _ {F : Type 0} (real : Real F) where
  rule_for-IsFresh :
      (c : Cause) (room : Option F) (tried : List Action) (cfg : Config)
      → Holds (IsFresh tried cfg) (rule_for real c room tried cfg)
  unfolding rule_for
  rule_for-IsFresh recall_violation room tried cfg =
      fresh_move-IsFresh ef (neighbour ef (get ef cfg) up) tried cfg
        (neighbour-in_space ef (get ef cfg) up)
  rule_for-IsFresh retrieve_dominates room tried cfg =
      if-narrower-IsFresh (has_room real room) tried cfg
  rule_for-IsFresh recall_headroom room tried cfg =
      if-narrower-IsFresh (has_room real room) tried cfg
  rule_for-IsFresh scoring_dominates room tried cfg =
      fresh_move-IsFresh retrieve_k (neighbour retrieve_k (get retrieve_k cfg) down) tried cfg
        (neighbour-in_space retrieve_k (get retrieve_k cfg) down)
  rule_for-IsFresh measurement_unstable room tried cfg =
      let a : Action = record { knob = pin; value = number (pos 1) } in
      elim (Bool-cases (is_unset (get pin cfg))) [
        | inr set_up ↦ rw set_up tt
        | inl unset ↦ elim (Bool-cases (is_tried a tried)) [
          | inl old ↦ rw (unset, old) tt
          | inr new ↦ rw (unset, new) (pinned-in_space, (new, unset-differs (get pin cfg) unset))
        ]
      ]
  rule_for-IsFresh feature_store_wait room tried cfg = tt

  first_rule-IsFresh :
      (hyps : List (Hypothesis F)) (tried : List Action) (cfg : Config)
      → Holds (IsFresh tried cfg) (first_rule real hyps tried cfg)
  unfolding first_rule
  first_rule-IsFresh [] tried cfg = tt
  first_rule-IsFresh (h ∷ hyps) tried cfg =
      or_else-Holds (IsFresh tried cfg) (rule_for real h.name h.headroom tried cfg)
        (first_rule real hyps tried cfg) (rule_for-IsFresh h.name h.headroom tried cfg)
        (first_rule-IsFresh hyps tried cfg)

  -- all kernels and all widths but the current ones were tried
  abbrev pub IsExhausted : List Action → Config → Type 0
  IsExhausted tried cfg =
      All
        (λ v.
          (eq_setting v (get kernel cfg) || is_tried (record { knob = kernel; value = v }) tried)
          ≡ true)
        (space kernel)
      × All
          (λ v.
            (eq_setting v (get ef cfg) || is_tried (record { knob = ef; value = v }) tried) ≡ true)
          (space ef)

  -- The heuristic planner proposes an action of the space that was not tried and changes the configuration;
  -- or it keeps the configuration, and then all other kernels and widths were tried.
  pub plan_heuristic-IsFresh :
      (hyps : List (Hypothesis F)) (tried : List Action) (cfg : Config)
      → IsFresh tried cfg (plan_heuristic real hyps tried cfg)
        ⊎ ((plan_heuristic real hyps tried cfg ≡ stay cfg) × IsExhausted tried cfg)
  unfolding in_space space plan_heuristic
  plan_heuristic-IsFresh hyps tried cfg =
      let rules = first_rule-IsFresh hyps tried cfg in
      let kernels = sweep-IsFresh kernel (space kernel) tried cfg (λ v h. h) in
      let widths = sweep-IsFresh ef (space ef) tried cfg (λ v h. h) in
      elim (Option-cases (first_rule real hyps tried cfg)) [
        | inr (a, fired) ↦
            inl (rw (fired, plan_heuristic) (subst (Holds (IsFresh tried cfg)) fired rules))
        | inl silent ↦ elim (Option-cases (sweep kernel (space kernel) tried cfg)) [
          | inr (a, fired) ↦
              inl (
                rw (silent, fired, plan_heuristic)
                  (subst (Holds (IsFresh tried cfg)) fired kernels))
          | inl swept ↦ elim (Option-cases (sweep ef (space ef) tried cfg)) [
            | inr (a, fired) ↦ inl (
                rw (silent, swept, fired, plan_heuristic)
                  (subst (Holds (IsFresh tried cfg)) fired widths))
            | inl none_left ↦ inr (
              rw (silent, swept, none_left, plan_heuristic) refl,
              (
                sweep-none kernel (space kernel) tried cfg swept,
                sweep-none ef (space ef) tried cfg none_left,
              ),
            )
          ]
        ]
      ]
