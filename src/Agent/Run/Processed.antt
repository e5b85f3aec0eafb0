-- ===== src/Agent/Run/Processed.antt =====
-- The steps that a run has done: their cost, and how they are left.
use agent_inbox_question.Base.{
  ℕ, zero, suc, ◌+◌, ◌≤◌, ◌≡◌, refl, true, none, some, List, [], ◌∷◌, length, get_elem?, set, arith,
}
use agent_inbox_question.Agent.Plan.{Step}
use agent_inbox_question.Agent.Plan.Laws.{total_cost}

-- The cost of the steps from the `n`-th on.
abbrev pub cost_from : List Step → ℕ → ℕ
cost_from [] n = 0
cost_from (x ∷ xs) zero = x.token_cost + total_cost xs
cost_from (x ∷ xs) (suc n) = cost_from xs n

pub cost_from-zero : (steps : List Step) → cost_from steps 0 ≡ total_cost steps
cost_from-zero [] = refl
cost_from-zero (x ∷ xs) = refl

pub cost_from-past : (steps : List Step) (n : ℕ) → get_elem? steps n ≡ none → cost_from steps n ≡ 0
cost_from-past [] n e = refl
cost_from-past (x ∷ xs) zero e = cc
cost_from-past (x ∷ xs) (suc n) e = cost_from-past xs n e

pub cost_from-next :
    (steps : List Step) (n : ℕ) (step step' : Step)
    → get_elem? steps n ≡ some step
    → cost_from steps n ≡ step.token_cost + cost_from (set steps n step') (suc n)
cost_from-next [] n step step' e = cc
cost_from-next (x ∷ xs) zero step step' e = ground (arith, cost_from-zero xs)
cost_from-next (x ∷ xs) (suc n) step step' e = cost_from-next xs n step step' e

-- The steps `ys` are the steps `xs`, with those from the `n`-th on done.
abbrev pub Processed : ℕ → List Step → List Step → Type 0
Processed n [] [] = Unit {0}
Processed zero (x ∷ xs) (y ∷ ys) =
    (y.name ≡ x.name) × (y.token_cost ≡ x.token_cost) × (y.done ≡ true) × Processed zero xs ys
Processed (suc n) (x ∷ xs) (y ∷ ys) = (y ≡ x) × Processed n xs ys
Processed _ _ _ = ⊥

pub Processed-past : (xs : List Step) (n : ℕ) → length xs ≤ n → Processed n xs xs
Processed-past [] n h = tt
Processed-past (x ∷ xs) zero h = absurd (omega (arith, h))
Processed-past (x ∷ xs) (suc n) h = (refl, Processed-past xs n (omega (arith, h)))

-- One step is done, and then those behind it.
pub Processed-next :
    (xs ys : List Step) (n : ℕ) (x y : Step)
    → get_elem? xs n ≡ some x
    → (y.name ≡ x.name) × (y.token_cost ≡ x.token_cost) × (y.done ≡ true)
    → Processed (suc n) (set xs n y) ys
    → Processed n xs ys
Processed-next [] ys n x y e d p = cc
Processed-next (z ∷ xs) [] zero x y e d p = p
Processed-next (z ∷ xs) [] (suc n) x y e d p = p
Processed-next (z ∷ xs) (v ∷ ys) zero x y e d p =
    let (name, cost, done) = d in let h = p.0 in (cc, cc, cc, p.1)
Processed-next (z ∷ xs) (v ∷ ys) (suc n) x y e d p = (p.0, Processed-next xs ys n x y e d p.1)
