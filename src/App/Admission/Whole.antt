-- ===== src/App/Admission/Whole.antt =====
-- What `class Bounds` of recserve_app/api.py lets through.
use recserve.Prelude.{
  ℕ, ◌≤◌, ◌≡◌, sym, ◌∙◌, subst, true, false, List, [], ◌∷◌, ◌++◌, length, ltb, arith, Bool-cases,
  inl, inr,
}
use mathlib.Core.List.{append_assoc}
use recserve.App.Admission.{
  Message, part, disconnect, late, Admission, busy, timed_out, gone, too_large, admitted,
  body_limit, read_body, admit, leave, parts,
}

-- A body that is let through is all that was sent of it, and within the limit.
pub read_body-admitted :
    (body whole : List ℕ) (messages : List Message)
    → read_body body messages ≡ admitted whole
    → (whole ≡ body ++ parts messages) × (length whole ≤ body_limit)
unfolding read_body
read_body-admitted body whole [] e = cc
read_body-admitted body whole (late ∷ messages) e = cc
read_body-admitted body whole (disconnect ∷ messages) e = cc
read_body-admitted body whole (part bytes true ∷ messages) e =
    elim (Bool-cases (ltb body_limit (length (body ++ bytes)))) [
      | inl over ↦ absurd (ground (arith, e, over))
      | inr within ↦
          (let (all_of, small) =
              read_body-admitted (body ++ bytes) whole messages (ground (arith, e, within)) in
            (all_of ∙ append_assoc body bytes (parts messages), small))
    ]
read_body-admitted body whole (part bytes false ∷ messages) e =
    elim (Bool-cases (ltb body_limit (length (body ++ bytes)))) [
      | inl over ↦ absurd (ground (arith, e, over))
      | inr within ↦
          (let this : body ++ bytes ≡ whole = ground (arith, e, within) in
            (sym this, subst (λ (l : List ℕ). length l ≤ body_limit) this (ground (arith, within))))
    ]

-- The requests that a client may start and end.
pub data Reach : ℕ → Type 0 where
  initial : Reach 0
  arrive : {active : ℕ} (messages : List Message) → Reach active → Reach (admit active messages).1
  finish : {active : ℕ} (outcome : Admission) → Reach active → Reach (leave outcome active)

pub Reach-le : (active : ℕ) → Reach active → active ≤ 64
unfolding admit leave
Reach-le _ initial = omega arith
Reach-le _ (arrive {active} messages r) = ground (arith, Reach-le active r)
Reach-le _ (finish {active} busy r) = Reach-le active r
Reach-le _ (finish {active} timed_out r) = omega (arith, Reach-le active r)
Reach-le _ (finish {active} gone r) = omega (arith, Reach-le active r)
Reach-le _ (finish {active} too_large r) = omega (arith, Reach-le active r)
Reach-le _ (finish {active} (admitted body) r) = omega (arith, Reach-le active r)
