-- ===== src/Agent/Diagnosis.antt =====
-- The hypotheses of scripts/agent.py: `diagnose`. Floats are a type with the operations used.
use recserve.Prelude.{ℕ, Bool, not, Option, none, some, List, [], ◌∷◌, ◌++◌, if◌then◌else◌}
use recserve.Prelude.Sorting.{sort}
use recserve.Pilot.Model.{Floats}
use recserve.Agent.Space.{Knob, ef, retrieve_k, kernel, pin}

-- Python's floats, with `<=`, `math.sqrt`, `round` to four digits, and the `mean` and `stdev` of the
-- module `statistics`
pub record Real (F : Type 0) : Type 0 where
  pub floats : Floats F
  pub less_eq : F → F → Bool
  pub sqrt : F → F
  pub round_4 : F → F
  pub mean : List F → F
  pub stdev : List F → F

-- what a benchmark reports and the agent reads
pub record Snapshot (F : Type 0) : Type 0 where
  pub p99_mean_us : F
  pub p99_cv : F
  pub retrieve_p99_us : F
  pub score_p99_us : F
  pub feature_p99_us : F
  pub retrieve_recall : F
  pub response_recall : F
  pub rss_mib : F

pub data Cause : Type 0 where
  retrieve_dominates scoring_dominates feature_store_wait : Cause
  measurement_unstable recall_headroom recall_violation : Cause

-- Of the evidence, the headroom is what a planner reads.
pub record Hypothesis (F : Type 0) : Type 0 where
  pub name : Cause
  pub confidence : F
  pub headroom : Option F
  pub suggests : Knob

module _ {F : Type 0} (real : Real F) where
  open real.floats use {less, sub, mul, div, of_ℕ}

  -- the decimal fraction n / d, which the correctly rounded division of the two integers gives
  abbrev pub fraction : ℕ → ℕ → F
  fraction n d = div (of_ℕ n) (of_ℕ d)

  -- `min(1.0, x)`
  abbrev pub at_most_one : F → F
  at_most_one x = if less x (of_ℕ 1) then x else of_ℕ 1

  -- `max(x, 1e-9)`
  abbrev pub positive : F → F
  positive x = if less x (fraction 1 1000000000) then fraction 1 1000000000 else x

  abbrev when : Bool → Hypothesis F → List (Hypothesis F)
  when b h = if b then h ∷ [] else []

  -- the hypotheses in the order in which they are appended
  unfoldable pub hypotheses : Snapshot F → F → List (Hypothesis F)
  hypotheses snap recall_floor =
      let p99 = positive snap.p99_mean_us in
      let headroom = sub snap.retrieve_recall recall_floor in
      when (less (mul (fraction 5 10) p99) snap.retrieve_p99_us) (record {
        name = retrieve_dominates;
        confidence = at_most_one (div snap.retrieve_p99_us p99);
        headroom = some (real.round_4 headroom);
        suggests = if less (fraction 1 100) headroom then ef else kernel;
      })
      ++ (when (less (mul (fraction 35 100) p99) snap.score_p99_us) (record {
        name = scoring_dominates;
        confidence = at_most_one (div snap.score_p99_us p99);
        headroom = none;
        suggests = retrieve_k;
      })
          ++ (when (less (mul (fraction 25 100) p99) snap.feature_p99_us) (record {
            name = feature_store_wait;
            confidence = at_most_one (div snap.feature_p99_us p99);
            headroom = none;
            suggests = kernel;
          })
              ++ (when (less (fraction 20 100) snap.p99_cv) (record {
                name = measurement_unstable;
                confidence = at_most_one snap.p99_cv;
                headroom = none;
                suggests = pin;
              })
                  ++ (if less (fraction 5 100) headroom
                      then record {
                        name = recall_headroom;
                        confidence = at_most_one (mul headroom (of_ℕ 4));
                        headroom = some (real.round_4 headroom);
                        suggests = ef;
                      }
                        ∷ []
                      else when (less headroom (of_ℕ 0)) (record {
                        name = recall_violation;
                        confidence = of_ℕ 1;
                        headroom = none;
                        suggests = ef;
                      })))))

  -- `diagnose`; `sort` with `reverse=True` leaves the order of equals
  unfoldable pub diagnose : Snapshot F → F → List (Hypothesis F)
  diagnose snap recall_floor =
      sort (λ a b. not (less a.confidence b.confidence)) (hypotheses snap recall_floor)
