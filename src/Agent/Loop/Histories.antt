-- ===== src/Agent/Loop/Histories.antt =====
-- The histories of the tuning loop of scripts/agent.py: what they make of the configuration, and how
-- long they are.
use recserve.Prelude.{
  ℕ, zero, suc, ◌+◌, ◌*◌, ◌≤◌, ◌≡◌, refl, ◌∙◌, ap, List, [], ◌∷◌, ◌++◌, length, length-append,
  arith, if◌then◌else◌, Bool-cases, inl, inr,
}
use recserve.Agent.Space.{Config, set, same_config, Action, valid}
use recserve.Agent.Diagnosis.{Real}
use recserve.Agent.Gate.{Gate}
use recserve.Agent.Loop.Progress.{trial-le}
use recserve.Agent.Loop.{
  is_confirmed, Entry, State, Planner, Environment, plan, trial, measure, note, execute, iterate,
  iterations,
}

-- the configuration that the accepted entries make of a first one
abbrev pub replay : {F : Type 0} → Config → List (Entry F) → Config
replay c [] = c
replay c (e ∷ es) = replay (if e.accepted then set e.action.knob e.action.value c else c) es

replay-append :
    {F : Type 0} (c : Config) (es : List (Entry F)) (e : Entry F)
    → replay c (es ++ (e ∷ []))
      ≡ (if e.accepted then set e.action.knob e.action.value (replay c es) else replay c es)
replay-append c [] e = refl
replay-append c (x ∷ es) e =
    replay-append (if x.accepted then set x.action.knob x.action.value c else c) es e

module _ {F : Type 0} (real : Real F) (env : Environment F) (gate : Gate F)
    (confirm_repeats : ℕ) where
  -- The history replayed from a configuration gives the current one.
  execute-replay :
      (it : ℕ) (a : Action) (s : State F) (start : Config)
      → replay start s.history ≡ s.best_cfg
      → (let t = execute real env gate confirm_repeats it a s in
          replay start t.history ≡ t.best_cfg)
  unfolding execute note measure
  execute-replay it a s start h =
      let cand = set a.knob a.value s.best_cfg in
      elim (Bool-cases (valid a)) [
        | inr outside ↦ rw outside h
        | inl ok ↦ elim (Bool-cases (same_config cand s.best_cfg)) [
          | inl equal ↦ rw (ok, equal) (replay-append start s.history _ ∙ h)
          | inr other ↦
              (let reason = (trial real env gate confirm_repeats s.best_cfg cand s.measured).0 in
                elim (Bool-cases (is_confirmed reason)) [
                  | inl won ↦
                      rw (ok, other, won)
                        (replay-append start s.history _ ∙ ap (set a.knob a.value) h)
                  | inr lost ↦ rw (ok, other, lost) (replay-append start s.history _ ∙ h)
                ])
        ]
      ]

  pub iterations-replay :
      (planner : Planner) (n it : ℕ) (s : State F) (start : Config)
      → replay start s.history ≡ s.best_cfg
      → (let t = iterations real env planner gate confirm_repeats n it s in
          replay start t.history ≡ t.best_cfg)
  unfolding iterations
  iterations-replay planner zero it s start h = h
  iterations-replay planner (suc n) it s start h =
      iterations-replay planner n (suc it) (iterate real env planner gate confirm_repeats it s)
        start (execute-replay it (plan real env planner it gate s) s start h)

  -- measurements and entries are bounded by the iterations
  execute-le :
      (it : ℕ) (a : Action) (s : State F)
      → (let t = execute real env gate confirm_repeats it a s in
          (t.measured ≤ s.measured + 2 * suc confirm_repeats)
          × (length t.history ≤ suc (length s.history)))
  unfolding execute note measure
  execute-le it a s =
      let cand = set a.knob a.value s.best_cfg in
      elim (Bool-cases (valid a)) [
        | inr outside ↦ rw outside (omega arith, omega arith)
        | inl ok ↦ elim (Bool-cases (same_config cand s.best_cfg)) [
          | inl equal ↦ rw (ok, equal) (omega arith, rw (length-append s.history _) (omega arith))
          | inr other ↦
              rw (ok, other)
                (
                  omega (
                    arith,
                    (trial-le real env gate confirm_repeats s.best_cfg cand s.measured).1,
                  ),
                  rw (length-append s.history _) (omega arith),
                )
        ]
      ]

  pub iterations-le :
      (planner : Planner) (n it : ℕ) (s : State F)
      → (let t = iterations real env planner gate confirm_repeats n it s in
          (t.measured ≤ s.measured + n * (2 * suc confirm_repeats))
          × (length t.history ≤ length s.history + n))
  unfolding iterations
  iterations-le planner zero it s = (omega arith, omega arith)
  iterations-le planner (suc n) it s =
      let next = iterate real env planner gate confirm_repeats it s in
      let (measured_now, entries_now) = execute-le it (plan real env planner it gate s) s in
      let (measured, entries) = iterations-le planner n (suc it) next in
      (omega (arith, measured_now, measured), omega (arith, entries_now, entries))
