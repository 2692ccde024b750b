-- ===== src/Agent/Loop.antt =====
-- The tuning loop of scripts/agent.py: `run_loop`. A benchmark run that fails ends the process, so
-- that a run of the loop is one where each benchmark reports.
pub mod Progress
pub mod Sweep
pub mod Histories
use recserve.Prelude.{
  ℕ, zero, suc, ◌+◌, String, Bool, true, false, not, Option, none, some, List, [], ◌∷◌, ◌++◌, map,
  count, max, if◌then◌else◌,
}
use recserve.Prelude.Int.{ℤ}
use recserve.Agent.Space.{Knob, ef, Config, default_config, set, same_config, update, Action, valid}
use recserve.Agent.Diagnosis.{Real, Snapshot, Hypothesis, diagnose}
use recserve.Agent.Planning.{Proposal, plan_heuristic, plan_random, plan_grid, plan_llm}
use recserve.Agent.Gate.{
  Gate, Verdict, improved, is_improved, verify, Calibration, calibrate, gate_of,
}

-- the reason of an entry; `confirmed` has the number of replications
pub data Reason : Type 0 where
  no_op : Reason
  refused : Verdict → Reason
  failed_replication : ℕ → Verdict → Reason
  confirmed : ℕ → Reason

abbrev pub is_confirmed : Reason → Bool
is_confirmed (confirmed n) = true
is_confirmed _ = false

-- an entry of the history; of a no-op the incumbent and the memory are missing
pub record Entry (F : Type 0) : Type 0 where
  pub config : Config
  pub action : Action
  pub accepted : Bool
  pub p99_mean_us : F
  pub response_recall : F
  pub retrieve_recall : F
  pub incumbent_p99_us : Option F
  pub rss_mib : Option F
  pub reason : Reason

pub record Point (F : Type 0) : Type 0 where
  pub iteration : ℕ
  pub p99_mean_us : F
  pub incumbent_p99_us : Option F
  pub response_recall : F
  pub retrieve_recall : F
  pub accepted : Bool
  pub config : Config

-- The local variables of `run_loop` that the iterations change, and the number of measurements made.
pub record State (F : Type 0) : Type 0 where
  pub measured : ℕ
  pub best : Snapshot F
  pub best_cfg : Config
  pub history : List (Entry F)
  pub trace : List (Point F)

pub data Planner : Type 0 where
  heuristic llm random grid : Planner

-- What the loop reads from outside: the benchmark, the draws of the random generator and the answers of
-- a language model by iteration, and `int`.
pub record Environment (F : Type 0) : Type 0 where
  pub observe : ℕ → Config → Snapshot F
  pub draws : ℕ → ℕ × ℕ
  pub proposed : ℕ → Option Proposal
  pub int_of : String → Option ℤ

abbrev pub tried_of : {F : Type 0} → List (Entry F) → List Action
tried_of = map λ e. e.action

module _ {F : Type 0} (real : Real F) (env : Environment F) where
  -- the planner's action for an iteration
  unfoldable pub plan : Planner → ℕ → Gate F → State F → Action
  plan planner it gate s =
      let hyps = diagnose real s.best gate.recall_floor in
      let tried = tried_of s.history in
      elim planner [
        | heuristic ↦ plan_heuristic real hyps tried s.best_cfg
        | llm ↦ plan_llm env.int_of (env.proposed it) (plan_heuristic real hyps tried s.best_cfg)
        | random ↦ plan_random (env.draws it).0 (env.draws it).1 s.best_cfg
        | grid ↦ plan_grid tried s.best_cfg
      ]

  -- the replications: n are left, r are done, and the next measurement is number `at`
  unfoldable pub replicate : Gate F → Config → Config → ℕ → ℕ → ℕ → Reason × ℕ
  replicate gate best_cfg cand_cfg zero r at = (confirmed r, at)
  replicate gate best_cfg cand_cfg (suc n) r at =
      let rest = replicate gate best_cfg cand_cfg n (suc r) (at + 2) in
      let verdict = verify real (env.observe at best_cfg) (env.observe (suc at) cand_cfg) gate in
      if is_improved verdict then rest else (failed_replication (suc r) verdict, at + 2)

  -- the paired measurement and its replications, from the measurement number `at`
  unfoldable pub trial : Gate F → ℕ → Config → Config → ℕ → Reason × ℕ
  trial gate confirm_repeats best_cfg cand_cfg at =
      let verdict = verify real (env.observe at best_cfg) (env.observe (suc at) cand_cfg) gate in
      if is_improved verdict
      then replicate gate best_cfg cand_cfg confirm_repeats 0 (at + 2)
      else (refused verdict, at + 2)

  -- a candidate that differs from the incumbent
  unfoldable pub measure : Gate F → ℕ → ℕ → Action → Config → State F → State F
  measure gate confirm_repeats it act cand_cfg s =
      let incumbent = env.observe s.measured s.best_cfg in
      let cand = env.observe (suc s.measured) cand_cfg in
      let (reason, at) = trial gate confirm_repeats s.best_cfg cand_cfg s.measured in
      let passed = is_confirmed reason in
      record {
        measured = at;
        best = if passed then cand else incumbent;
        best_cfg = if passed then cand_cfg else s.best_cfg;
        history =
            s.history
            ++ (record {
              config = cand_cfg;
              action = act;
              accepted = passed;
              p99_mean_us = cand.p99_mean_us;
              response_recall = cand.response_recall;
              retrieve_recall = cand.retrieve_recall;
              incumbent_p99_us = some incumbent.p99_mean_us;
              rss_mib = some cand.rss_mib;
              reason = reason;
            }
                ∷ []);
        trace =
            s.trace
            ++ (record {
              iteration = it;
              p99_mean_us = cand.p99_mean_us;
              incumbent_p99_us = some incumbent.p99_mean_us;
              response_recall = cand.response_recall;
              retrieve_recall = cand.retrieve_recall;
              accepted = passed;
              config = cand_cfg;
            }
                ∷ []);
      }

  -- an action that changes nothing is noted
  unfoldable pub note : Action → Config → State F → State F
  note act cand_cfg s = record s {
    history =
        s.history
        ++ (record {
          config = cand_cfg;
          action = act;
          accepted = false;
          p99_mean_us = s.best.p99_mean_us;
          response_recall = s.best.response_recall;
          retrieve_recall = s.best.retrieve_recall;
          incumbent_p99_us = none;
          rss_mib = none;
          reason = no_op;
        }
            ∷ []);
  }

  -- an iteration, from the planned action on
  unfoldable pub execute : Gate F → ℕ → ℕ → Action → State F → State F
  execute gate confirm_repeats it act s =
      let cand_cfg = set act.knob act.value s.best_cfg in
      if not (valid act)
      then s
      else if same_config cand_cfg s.best_cfg
      then note act cand_cfg s
      else measure gate confirm_repeats it act cand_cfg s

  abbrev pub iterate : Planner → Gate F → ℕ → ℕ → State F → State F
  iterate planner gate confirm_repeats it s =
      execute gate confirm_repeats it (plan planner it gate s) s

  -- n iterations, from the iteration number `it`
  unfoldable pub iterations : Planner → Gate F → ℕ → ℕ → ℕ → State F → State F
  iterations planner gate confirm_repeats zero it s = s
  iterations planner gate confirm_repeats (suc n) it s =
      iterations planner gate confirm_repeats n (suc it) (iterate planner gate confirm_repeats it s)
