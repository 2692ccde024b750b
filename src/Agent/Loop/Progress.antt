-- ===== src/Agent/Loop/Progress.antt =====
-- The tuning loop of scripts/agent.py against a specification of what may change a configuration.
use recserve.Prelude.{ℕ, zero, suc, ◌+◌, ◌*◌, ◌≤◌, ◌≡◌, refl, true, arith, Bool-cases, inl, inr}
use recserve.Agent.Space.{Config, set, same_config, Action, valid}
use recserve.Agent.Space.Membership.{IsConfig, set-IsConfig}
use recserve.Agent.Diagnosis.{Real}
use recserve.Agent.Gate.{
  Gate, Verdict, low_recall, over_budget, within_noise, improved, is_improved, verify,
}
use recserve.Agent.Loop.{
  is_confirmed, State, Planner, Environment, plan, replicate, trial, measure, note, execute,
  iterate, iterations,
}

improved_only : (v : Verdict) → is_improved v ≡ true → v ≡ improved
improved_only low_recall h = cc
improved_only over_budget h = cc
improved_only within_noise h = cc
improved_only improved h = refl

module _ {F : Type 0} (real : Real F) (env : Environment F) (gate : Gate F) where
  -- n pairs of measurements in a row, from number `at`, in each of which the gate accepts the candidate
  abbrev pub Wins : ℕ → Config → Config → ℕ → Type 0
  Wins zero base cand at = Unit
  Wins (suc n) base cand at =
      (verify real (env.observe at base) (env.observe (suc at) cand) gate ≡ improved)
      × Wins n base cand (at + 2)

  replicate-Wins :
      (base cand : Config) (n r at : ℕ)
      → is_confirmed (replicate real env gate base cand n r at).0 ≡ true
      → Wins n base cand at
  unfolding replicate
  replicate-Wins base cand zero r at h = tt
  replicate-Wins base cand (suc n) r at h =
      let v = verify real (env.observe at base) (env.observe (suc at) cand) gate in
      elim (Bool-cases (is_improved v)) [
        | inl won ↦ (
          improved_only v won,
          replicate-Wins base cand n (suc r) (at + 2) (ground (arith, h, won)),
        )
        | inr lost ↦ absurd (ground (arith, h, lost))
      ]

  replicate-le :
      (base cand : Config) (n r at : ℕ)
      → (at ≤ (replicate real env gate base cand n r at).1)
        × ((replicate real env gate base cand n r at).1 ≤ at + 2 * n)
  unfolding replicate
  replicate-le base cand zero r at = (omega arith, omega arith)
  replicate-le base cand (suc n) r at =
      let v = verify real (env.observe at base) (env.observe (suc at) cand) gate in
      let (low, high) = replicate-le base cand n (suc r) (at + 2) in
      elim (Bool-cases (is_improved v)) [
        | inl won ↦ rw won (omega (arith, low), omega (arith, high))
        | inr lost ↦ rw lost (omega arith, omega arith)
      ]

  trial-Wins :
      (confirm_repeats : ℕ) (base cand : Config) (at : ℕ)
      → is_confirmed (trial real env gate confirm_repeats base cand at).0 ≡ true
      → Wins (suc confirm_repeats) base cand at
  unfolding trial
  trial-Wins n base cand at h =
      let v = verify real (env.observe at base) (env.observe (suc at) cand) gate in
      elim (Bool-cases (is_improved v)) [
        | inl won ↦
            (improved_only v won, replicate-Wins base cand n 0 (at + 2) (ground (arith, h, won)))
        | inr lost ↦ absurd (ground (arith, h, lost))
      ]

  pub trial-le :
      (n : ℕ) (base cand : Config) (at : ℕ)
      → (at ≤ (trial real env gate n base cand at).1)
        × ((trial real env gate n base cand at).1 ≤ at + 2 * suc n)
  unfolding trial
  trial-le n base cand at =
      let v = verify real (env.observe at base) (env.observe (suc at) cand) gate in
      let (low, high) = replicate-le base cand n 0 (at + 2) in
      elim (Bool-cases (is_improved v)) [
        | inl won ↦ rw won (omega (arith, low), omega (arith, high))
        | inr lost ↦ rw lost (omega arith, omega arith)
      ]

  -- What may happen to a configuration and to the number of measurements: it is kept, or an action of the
  -- space replaces it after the candidate has won all its comparisons.
  pub data Moves (confirm_repeats : ℕ) : ℕ → Config → ℕ → Config → Type 0 where
    done : {at : ℕ} {c : Config} → Moves confirm_repeats at c at c
    kept :
        {at next last : ℕ} {c d : Config}
        → at ≤ next
        → Moves confirm_repeats next c last d
        → Moves confirm_repeats at c last d
    moved :
        {at next last : ℕ} {c d : Config} (a : Action)
        → valid a ≡ true
        → Wins (suc confirm_repeats) c (set a.knob a.value c) at
        → at ≤ next
        → Moves confirm_repeats next (set a.knob a.value c) last d
        → Moves confirm_repeats at c last d

  measure-Moves :
      (n it : ℕ) (a : Action) (s : State F) {last : ℕ} {d : Config}
      → valid a ≡ true
      → (let t = measure real env gate n it a (set a.knob a.value s.best_cfg) s in
          Moves n t.measured t.best_cfg last d → Moves n s.measured s.best_cfg last d)
  unfolding measure
  measure-Moves n it a s ok =
      let cand = set a.knob a.value s.best_cfg in
      let (low, high) = trial-le n s.best_cfg cand s.measured in
      elim (Bool-cases (is_confirmed (trial real env gate n s.best_cfg cand s.measured).0)) [
        | inl won ↦
            rw won (λ rest. moved a ok (trial-Wins n s.best_cfg cand s.measured won) low rest)
        | inr lost ↦ rw lost (λ rest. kept low rest)
      ]

  execute-Moves :
      (n it : ℕ) (a : Action) (s : State F) {last : ℕ} {d : Config}
      → (let t = execute real env gate n it a s in
          Moves n t.measured t.best_cfg last d → Moves n s.measured s.best_cfg last d)
  unfolding execute note
  execute-Moves n it a s =
      let cand = set a.knob a.value s.best_cfg in
      elim (Bool-cases (valid a)) [
        | inr outside ↦ rw outside (λ rest. rest)
        | inl ok ↦ elim (Bool-cases (same_config cand s.best_cfg)) [
          | inl equal ↦ rw (ok, equal) (λ rest. rest)
          | inr other ↦ rw (ok, other) (measure-Moves n it a s ok)
        ]
      ]

  pub iterations-Moves :
      (planner : Planner) (n count it : ℕ) (s : State F)
      → (let t = iterations real env planner gate n count it s in
          Moves n s.measured s.best_cfg t.measured t.best_cfg)
  unfolding iterations
  iterations-Moves planner n zero it s = done
  iterations-Moves planner n (suc count) it s =
      execute-Moves n it (plan real env planner it gate s) s
        (iterations-Moves planner n count (suc it) (iterate real env planner gate n it s))

  pub Moves-IsConfig :
      {n at last : ℕ} {c d : Config} → Moves n at c last d → IsConfig c → IsConfig d
  unfolding valid
  Moves-IsConfig done h = h
  Moves-IsConfig (kept le rest) h = Moves-IsConfig rest h
  Moves-IsConfig {c = c} (moved a ok won le rest) h =
      Moves-IsConfig rest (set-IsConfig a.knob a.value c ok h)
