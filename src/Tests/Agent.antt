-- ===== src/Tests/Agent.antt =====
-- The theorems about the tuning agent at a small benchmark.
use recserve.Prelude.{
  ℕ, suc, ◌+◌, ◌*◌, ◌≤◌, ◌≡◌, refl, true, false, none, some, [], All, ltb, leb, max, arith, same,
  ◌⊎◌, ◌↔◌,
}
use recserve.Prelude.Int.{pos}
use recserve.Agent.Space.{
  ef, Setting, number, default_config, update, same_config, eq_setting, valid, in_space, space,
  all_actions,
}
use recserve.Agent.Space.Membership.{default_config-IsConfig}
use recserve.Agent.Diagnosis.{Real, Snapshot, hypotheses, diagnose}
use recserve.Agent.Planning.{is_tried, stay, plan_heuristic, plan_grid, plan_llm, Proposal}
use recserve.Agent.Planning.Choices.{IsFresh, IsExhausted, plan_heuristic-IsFresh}
use recserve.Agent.Planning.Admissible.{plan_llm-valid}
use recserve.Agent.Gate.{is_zero, verify, calibrate, samples, gate_of}
use recserve.Agent.Loop.{
  grid, Environment, tried_of, plan, execute, note, measure, trial, iterations,
}
use recserve.Agent.Loop.Progress.{Moves}
use recserve.Agent.Run.{
  Options, Baseline, started, gate_for, finished, report, run_loop, validate_pr,
}
use recserve.Agent.Run.Outcomes.{
  run_loop-Moves, run_loop-exhausted, run_loop-le, validate_pr_passes,
}
use recserve.Tests.{numbers}

abbrev whole : Real ℕ
whole = record {
  floats = numbers;
  less_eq = leb;
  sqrt = λ n. n;
  round_4 = λ n. n;
  mean = λ xs. 100;
  stdev = λ xs. 0;
}

-- a snapshot with a given p99
abbrev snapshot_of : ℕ → Snapshot ℕ
snapshot_of p99 = record {
  p99_mean_us = p99;
  p99_cv = 0;
  retrieve_p99_us = 0;
  score_p99_us = 0;
  feature_p99_us = 0;
  retrieve_recall = 100;
  response_recall = 100;
  rss_mib = 10;
}

abbrev width_of : Setting → ℕ
width_of (number (pos n)) = n
width_of _ = 0

-- a benchmark whose p99 is the width of the search, and one that nothing changes
abbrev steep : Environment ℕ
steep = record {
  observe = λ at c. snapshot_of (width_of c.ef);
  draws = λ it. (it, it);
  proposed = λ it. none;
  int_of = λ s. none;
}

abbrev flat : Environment ℕ
flat = record {
  observe = λ at c. snapshot_of 100;
  draws = λ it. (it, it);
  proposed = λ it. none;
  int_of = λ s. none;
}

abbrev sweep_for : ℕ → Options ℕ
sweep_for n = record {
  planner = grid;
  iterations = n;
  recall_floor_frac = 1;
  rss_slack = 2;
  confirm_repeats = 1;
  calibrate_repeats = 2;
  start_config = [];
}

run_loop-Moves_example :
    Moves whole steep
      (gate_for whole steep (sweep_for 3))
      1
      (suc (max 2 2))
      (run_loop whole steep (sweep_for 3)).start_config
      (finished whole steep (sweep_for 3)).measured
      (run_loop whole steep (sweep_for 3)).best_config
run_loop-Moves_example = run_loop-Moves whole steep (sweep_for 3)

run_loop-exhausted_example :
    All
      (λ a. is_tried a (tried_of (run_loop whole steep (sweep_for 23)).history) ≡ true)
      all_actions
run_loop-exhausted_example = run_loop-exhausted whole steep (sweep_for 23) refl (omega arith)

rejected : (run_loop whole flat (sweep_for 1)).accepted ≡ 0
unfolding same run_loop report finished started gate_for gate_of calibrate samples iterations
    execute plan plan_grid all_actions space valid in_space eq_setting same_config update note
    measure trial verify diagnose hypotheses
rejected = refl

run_loop-le_example :
    ((finished whole steep (sweep_for 3)).measured ≤ suc (max 2 2) + 3 * (2 * suc 1))
    × ((run_loop whole steep (sweep_for 3)).accepted + (run_loop whole steep (sweep_for 3)).rejected
        ≤ 3)
run_loop-le_example = run_loop-le whole steep (sweep_for 3)

abbrev recorded : Baseline ℕ
recorded = record { p99_mean_us = 60; response_recall = 100 }

validate_pr_passes_example :
    (validate_pr whole steep 2 0 (some recorded) ≡ 0)
    ↔ ((is_zero whole 60 ≡ false) × ◌≡◌ {A = ℕ} 0 0 × ((ltb 2 1 ≡ false) × (ltb 0 0 ≡ false)))
validate_pr_passes_example = validate_pr_passes whole steep 2 0 recorded

plan_heuristic-IsFresh_example :
    IsFresh [] default_config (plan_heuristic whole [] [] default_config)
    ⊎ ((plan_heuristic whole [] [] default_config ≡ stay default_config)
        × IsExhausted whole [] default_config)
plan_heuristic-IsFresh_example = plan_heuristic-IsFresh whole [] [] default_config

abbrev proposal : Proposal
proposal = record { knob = "kernel"; value = "rm -rf" }

fallback_valid : valid (stay default_config) ≡ true
unfolding valid
fallback_valid = default_config-IsConfig ef

plan_llm-valid_example : valid (plan_llm (λ s. none) (some proposal) (stay default_config)) ≡ true
plan_llm-valid_example =
    plan_llm-valid (λ s. none) (some proposal) (stay default_config) fallback_valid
