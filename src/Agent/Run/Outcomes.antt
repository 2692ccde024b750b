-- ===== src/Agent/Run/Outcomes.antt =====
-- What a run of the tuning loop of scripts/agent.py and its gate on a change come to.
use recserve.Prelude.{
  ℕ, suc, ◌+◌, ◌*◌, ◌≤◌, ◌≡◌, refl, sym, ◌∙◌, subst, Bool, true, false, not, some, List, [], ◌∷◌,
  All, count, length, max, arith, Bool-cases, inl, inr, ◌↔◌,
}
use recserve.Agent.Space.{Config, default_config, update, same_config, all_actions}
use recserve.Agent.Space.Membership.{IsConfig, eq_setting_refl}
use recserve.Agent.Diagnosis.{Real, fraction}
use recserve.Agent.Planning.{is_tried}
use recserve.Agent.Loop.{Entry, grid, Environment, tried_of, iterations}
use recserve.Agent.Loop.Progress.{Moves, Moves-IsConfig, iterations-Moves}
use recserve.Agent.Loop.Sweep.{grid-exhausted}
use recserve.Agent.Loop.Histories.{replay, iterations-replay, iterations-le}
use recserve.Agent.Gate.{is_zero}
use recserve.Agent.Run.{
  Options, Baseline, started, gate_for, finished, report, run_loop, regressions, validate_pr,
}

same_config_refl : (c : Config) → same_config c c ≡ true
unfolding same_config
same_config_refl c =
    rw
      (
        eq_setting_refl c.ef,
        eq_setting_refl c.retrieve_k,
        eq_setting_refl c.kernel,
        eq_setting_refl c.pin,
      )
      refl

replay_rejected :
    {F : Type 0} (c : Config) (es : List (Entry F))
    → count (λ e. e.accepted) es ≡ 0
    → replay c es ≡ c
replay_rejected c [] h = refl
replay_rejected c (e ∷ es) h = elim (Bool-cases e.accepted) [
  | inl yes_accepted ↦ absurd (ground (arith, h, yes_accepted))
  | inr refused ↦ rw refused (replay_rejected c es (ground (arith, h, refused)))
]

count-partition :
    {A : Type 0} (p : A → Bool) (xs : List A) → count p xs + count (λ x. not (p x)) xs ≡ length xs
count-partition p [] = refl
count-partition p (x ∷ xs) = ground (arith, count-partition p xs)

module _ {F : Type 0} (real : Real F) (env : Environment F) where
  -- Whatever the planner and the benchmark, a run takes its configuration from the start to the result by
  -- moves of the specification: the configuration is kept, or one action of the space changes it after
  -- its candidate has won the paired measurement and each of the replications.
  pub run_loop-Moves :
      (o : Options F)
      → Moves real env
          (gate_for real env o)
          o.confirm_repeats
          (suc (max 2 o.calibrate_repeats))
          (run_loop real env o).start_config
          (finished real env o).measured
          (run_loop real env o).best_config
  unfolding run_loop report started finished
  run_loop-Moves o =
      iterations-Moves real env (gate_for real env o) o.planner o.confirm_repeats o.iterations 1
        (started real env o)

  pub run_loop-IsConfig :
      (o : Options F)
      → IsConfig (update default_config o.start_config)
      → IsConfig (run_loop real env o).best_config
  unfolding run_loop report
  run_loop-IsConfig o h = Moves-IsConfig real env (gate_for real env o) (run_loop-Moves o) h

  -- The accepted entries of the history, replayed from the start, give the configuration of the result.
  pub run_loop-replay :
      (o : Options F)
      → replay (run_loop real env o).start_config (run_loop real env o).history
        ≡ (run_loop real env o).best_config
  unfolding run_loop report started finished
  run_loop-replay o =
      iterations-replay real env (gate_for real env o) o.confirm_repeats o.planner o.iterations 1
        (started real env o) (update default_config o.start_config) refl

  -- If no entry was accepted, the result has the configuration of the start, an improvement of zero, and
  -- is confirmed.
  run_loop_unchanged :
      (o : Options F)
      → (run_loop real env o).accepted ≡ 0
      → ((run_loop real env o).best_config ≡ (run_loop real env o).start_config)
        × (((run_loop real env o).improvement_frac ≡ real.floats.of_ℕ 0)
            × ((run_loop real env o).final_confirmed ≡ true))
  unfolding run_loop report
  run_loop_unchanged o none_accepted =
      let kept : (run_loop real env o).best_config ≡ (run_loop real env o).start_config =
        sym (run_loop-replay o)
        ∙ replay_rejected (run_loop real env o).start_config (finished real env o).history
            none_accepted in
      let same_start = same_config_refl (run_loop real env o).start_config in
      let unchanged : same_config (run_loop real env o).best_config
            (run_loop real env o).start_config
          ≡ true =
        rw kept same_start in
      (kept, (rw unchanged refl, rw unchanged refl))

  -- After at least 23 iterations the grid planner has tried every action of the space.
  pub run_loop-exhausted :
      (o : Options F)
      → o.planner ≡ grid
      → 23 ≤ o.iterations
      → All (λ a. is_tried a (tried_of (run_loop real env o).history) ≡ true) all_actions
  unfolding run_loop report finished
  run_loop-exhausted o sweeps enough =
      subst
        (λ planner.
          All
            (λ a.
              is_tried a (
                tried_of
                  (iterations real env planner (gate_for real env o) o.confirm_repeats o.iterations
                    1 (started real env o)).history)
              ≡ true)
            all_actions)
        (sym sweeps)
        (grid-exhausted real env (gate_for real env o) o.confirm_repeats o.iterations 1
          (started real env o) enough)

  -- Up to its last iteration a run makes at most the calibration's measurements, one more, and for each
  -- iteration two for the pair and two for each replication; it has at most one entry for each.
  pub run_loop-le :
      (o : Options F)
      → ((finished real env o).measured
          ≤ suc (max 2 o.calibrate_repeats) + o.iterations * (2 * suc o.confirm_repeats))
        × ((run_loop real env o).accepted + (run_loop real env o).rejected ≤ o.iterations)
  unfolding run_loop report started finished
  run_loop-le o =
      let s = started real env o in
      let (measured, entries) =
        iterations-le real env (gate_for real env o) o.confirm_repeats o.planner o.iterations 1 s in
      (
        measured,
        omega (
          arith,
          entries,
          count-partition (λ (e : Entry F). e.accepted) (finished real env o).history,
        ),
      )

  -- With a baseline, the gate on a change exits with 0 exactly when the p99 of the baseline is not zero, the unit tests have passed, the ratio of
  -- the p99 is not above its limit, and the recall has not dropped by more than 0.01.
  pub validate_pr_passes :
      (max_ratio : F) (returncode : ℕ) (base : Baseline F)
      → let snap = env.observe 0 default_config in
        (validate_pr real env max_ratio returncode (some base) ≡ 0) ↔ (
          (is_zero real base.p99_mean_us ≡ false)
          × (returncode ≡ 0)
          × ((real.floats.less max_ratio (real.floats.div snap.p99_mean_us base.p99_mean_us)
                ≡ false)
              × (real.floats.less
                    (fraction real 1 100)
                    (real.floats.sub base.response_recall snap.response_recall)
                  ≡ false)))
  unfolding validate_pr regressions
  validate_pr_passes max_ratio returncode base = (
    λ h. ground (arith, h),
    λ (some_base, code, (ratio, drop)). ground (arith, some_base, code, ratio, drop),
  )
