-- ===== src/Agent/Plan/Laws.antt =====
-- The cost and the length of a plan.
use agent_inbox_question.Base.{
  ℕ, zero, suc, ◌+◌, ◌*◌, ◌≤◌, ◌≡◌, refl, String, List, [], ◌∷◌, ◌++◌, length, length-append, none,
  arith,
}
use agent_inbox_question.Agent.Plan.{
  Step, bounded_hash, feedback_steps, plan_steps, build_steps, step_count, parse_directives,
  hash_input,
}

-- A bounded hash lies between its bounds.
pub bounded_hash_bounds :
    (h salt lo hi : ℕ)
    → lo ≤ hi
    → (lo ≤ bounded_hash h salt lo hi) × (bounded_hash h salt lo hi ≤ hi)
unfolding bounded_hash
bounded_hash_bounds h salt lo hi le = (omega arith, omega arith)

abbrev pub total_cost : List Step → ℕ
total_cost [] = 0
total_cost (s ∷ ss) = s.token_cost + total_cost ss

pub total_cost-append : (xs ys : List Step) → total_cost (xs ++ ys) ≡ total_cost xs + total_cost ys
total_cost-append [] ys = omega arith
total_cost-append (x ∷ xs) ys = omega (arith, total_cost-append xs ys)

plan_cost-le : (h count left i : ℕ) → total_cost (plan_steps h count left i) ≤ 400 * left
unfolding plan_steps
plan_cost-le h count zero i = omega arith
plan_cost-le h count (suc left) i =
    omega
      (arith, (bounded_hash_bounds h i 150 400 (omega arith)).1, plan_cost-le h count left (i + 1))

feedback_cost-le :
    (quote : String → String) (h before : ℕ) (fbs : List String)
    → total_cost (feedback_steps quote h before fbs) ≤ 300 * length fbs
unfolding feedback_steps
feedback_cost-le quote h before [] = omega arith
feedback_cost-le quote h before (fb ∷ fbs) = omega (
  arith,
  (bounded_hash_bounds h (before + 100) 150 300 (omega arith)).1,
  feedback_cost-le quote h (before + 1) fbs,
)

length-plan_steps : (h count left i : ℕ) → length (plan_steps h count left i) ≡ left
unfolding plan_steps
length-plan_steps h count zero i = refl
length-plan_steps h count (suc left) i = omega (arith, length-plan_steps h count left (i + 1))

length-feedback_steps :
    (quote : String → String) (h before : ℕ) (fbs : List String)
    → length (feedback_steps quote h before fbs) ≡ length fbs
unfolding feedback_steps
length-feedback_steps quote h before [] = refl
length-feedback_steps quote h before (fb ∷ fbs) =
    omega (arith, length-feedback_steps quote h (before + 1) fbs)

-- A plan has a step for each piece of feedback and the count asked for.
pub length-build_steps :
    (quote : String → String) (h count : ℕ) (fbs : List String)
    → length (build_steps quote h count fbs) ≡ length fbs + count
unfolding build_steps
length-build_steps quote h count fbs = omega (
  arith,
  length-append {0} (feedback_steps quote h 0 fbs) (plan_steps h count count 0),
  length-feedback_steps quote h 0 fbs,
  length-plan_steps h count count 0,
)

-- A plan costs at most 400 tokens for each step and 300 more for each piece of feedback.
pub build_steps_cost :
    (quote : String → String) (h count : ℕ) (fbs : List String)
    → total_cost (build_steps quote h count fbs) ≤ 400 * count + 300 * length fbs
unfolding build_steps
build_steps_cost quote h count fbs = omega (
  arith,
  total_cost-append (feedback_steps quote h 0 fbs) (plan_steps h count count 0),
  feedback_cost-le quote h 0 fbs,
  plan_cost-le h count count 0,
)

-- Without a directive for it, a plan has four to eight steps.
pub step_count_bounds :
    (title description : String)
    → (parse_directives description).steps ≡ none
    → (4 ≤ step_count title description) × (step_count title description ≤ 8)
unfolding step_count
step_count_bounds title description h =
    rw (h, step_count) (bounded_hash_bounds (hash_input title description) 0 4 8 (omega arith))
