-- ===== src/Store/Table.antt =====
-- SQL over a table as a list of rows: UPDATE with a WHERE clause and its count of affected rows,
-- and rows under ids that AUTOINCREMENT gave out, the newest first.
use mathlib.Core.List.{Memᴰ}
use mathlib.Core.List.Memᴰ.{head, tail}
use agent_inbox_question.Base.{
  ℕ, ◌+◌, ◌≤◌, ◌<◌, ◌≡◌, refl, Bool, true, false, Bool-cases, inl, inr, Option, none, some, List,
  [], ◌∷◌, ◌++◌, if◌then◌else◌, ◌==◌, arith,
}

abbrev pub one_if : Bool → ℕ
one_if true = 1
one_if false = 0

module _ {A : Type 0} where
  -- The rows that fit a WHERE clause: what `RowsAffected` counts.
  unfoldable pub count_where : (A → Bool) → List A → ℕ
  count_where p [] = 0
  count_where p (x ∷ xs) = one_if (p x) + count_where p xs

  unfoldable pub update_where : (A → Bool) → (A → A) → List A → List A
  update_where p f [] = []
  update_where p f (x ∷ xs) = (if p x then f x else x) ∷ update_where p f xs

  -- Some row that fits.
  unfoldable pub find_where : (A → Bool) → List A → Option A
  find_where p [] = none
  find_where p (x ∷ xs) = if p x then some x else find_where p xs

  pub count_where-keep :
      (q p : A → Bool) (f : A → A)
      → ((x : A) → p x ≡ true → q (f x) ≡ q x)
      → (xs : List A) → count_where q (update_where p f xs) ≡ count_where q xs
  unfolding count_where update_where
  count_where-keep q p f same [] = refl
  count_where-keep q p f same (x ∷ xs) = ground (arith, same x, count_where-keep q p f same xs)

  pub count_where-drop :
      (q p : A → Bool) (f : A → A)
      → ((x : A) → p x ≡ true → (q x ≡ true) × (q (f x) ≡ false))
      → (xs : List A) → count_where q (update_where p f xs) + count_where p xs ≡ count_where q xs
  unfolding count_where update_where
  count_where-drop q p f left [] = refl
  count_where-drop q p f left (x ∷ xs) = ground (arith, left x, count_where-drop q p f left xs)

  pub count_where-gain :
      (q p : A → Bool) (f : A → A)
      → ((x : A) → p x ≡ true → (q x ≡ false) × (q (f x) ≡ true))
      → (xs : List A) → count_where q (update_where p f xs) ≡ count_where q xs + count_where p xs
  unfolding count_where update_where
  count_where-gain q p f joined [] = refl
  count_where-gain q p f joined (x ∷ xs) =
      ground (arith, joined x, count_where-gain q p f joined xs)

  -- A clause that an UPDATE makes no row fit, no more rows fit afterwards.
  pub count_where_shrink :
      (q p : A → Bool) (f : A → A)
      → ((x : A) → p x ≡ true → q (f x) ≡ true → q x ≡ true)
      → (xs : List A) → count_where q (update_where p f xs) ≤ count_where q xs
  unfolding count_where update_where
  count_where_shrink q p f kept [] = omega arith
  count_where_shrink q p f kept (x ∷ xs) = ground (arith, kept x, count_where_shrink q p f kept xs)

  -- Rows that an UPDATE makes fit a clause fit it afterwards.
  pub count_where_moved :
      (q p r : A → Bool) (f : A → A)
      → ((x : A) → r x ≡ true → (p x ≡ true) × (q (f x) ≡ true))
      → (xs : List A) → count_where r xs ≤ count_where q (update_where p f xs)
  unfolding count_where update_where
  count_where_moved q p r f moved [] = omega arith
  count_where_moved q p r f moved (x ∷ xs) =
      ground (arith, moved x, count_where_moved q p r f moved xs)

  -- A row that is found is counted.
  pub find_where_counts :
      (p q : A → Bool) (x : A)
      → q x ≡ true
      → (xs : List A) → find_where p xs ≡ some x
      → 1 ≤ count_where q xs
  unfolding find_where count_where
  find_where_counts p q x h [] e = cc
  find_where_counts p q x h (y ∷ ys) e = elim (Bool-cases (p y)) [
    | inl b ↦ let same : y ≡ x = ground (arith, e, b) in rw (same, h) (omega arith)
    | inr b ↦
        let found : find_where p ys ≡ some x = ground (arith, e, b) in
        omega (arith, find_where_counts p q x h ys found)
  ]

  pub find_where_fits : (p : A → Bool) (x : A) (xs : List A) → find_where p xs ≡ some x → p x ≡ true
  unfolding find_where
  find_where_fits p x [] e = cc
  find_where_fits p x (y ∷ ys) e = elim (Bool-cases (p y)) [
    | inl b ↦ let same : y ≡ x = ground (arith, e, b) in rw (← same) b
    | inr b ↦ find_where_fits p x ys (ground (arith, e, b))
  ]

  -- A row that an UPDATE fits, and the row that it becomes.
  pub updated_row :
      (p : A → Bool) (f : A → A) (xs : List A)
      → 1 ≤ count_where p xs
      → (x : A) × Memᴰ x xs × (p x ≡ true) × Memᴰ (f x) (update_where p f xs)
  unfolding count_where update_where
  updated_row p f [] h = absurd (omega (arith, h))
  updated_row p f (x ∷ xs) h = elim (Bool-cases (p x)) [
    | inl e ↦ (x, head refl, e, rw e (head refl))
    | inr e ↦
        let more : 1 ≤ count_where p xs = ground (arith, h, e) in
        let (y, m, fits, n) = updated_row p f xs more in (y, tail m, fits, tail n)
  ]

  pub count_where-append :
      (p : A → Bool) (xs ys : List A)
      → count_where p (xs ++ ys) ≡ count_where p xs + count_where p ys
  unfolding count_where
  count_where-append p [] ys = omega arith
  count_where-append p (x ∷ xs) ys = omega (arith, count_where-append p xs ys)

  -- An UPDATE that fits no row writes nothing.
  pub update_where-none :
      (p : A → Bool) (f : A → A) (xs : List A) → count_where p xs ≡ 0 → update_where p f xs ≡ xs
  unfolding count_where update_where
  update_where-none p f [] h = refl
  update_where-none p f (x ∷ xs) h = ground (arith, update_where-none p f xs)

  -- Fewer rows fit a narrower clause.
  pub count_where_mono :
      (q p : A → Bool)
      → ((x : A) → p x ≡ true → q x ≡ true)
      → (xs : List A) → count_where p xs ≤ count_where q xs
  unfolding count_where
  count_where_mono q p wider [] = omega arith
  count_where_mono q p wider (x ∷ xs) = ground (arith, wider x, count_where_mono q p wider xs)

  -- Two clauses that no row fits together, within a third.
  pub count_where-disjoint :
      (q p r : A → Bool)
      → ((x : A) → p x ≡ true → (q x ≡ true) × (r x ≡ false))
      → ((x : A) → r x ≡ true → q x ≡ true)
      → (xs : List A) → count_where p xs + count_where r xs ≤ count_where q xs
  unfolding count_where
  count_where-disjoint q p r apart within [] = omega arith
  count_where-disjoint q p r apart within (x ∷ xs) =
      ground (arith, apart x, within x, count_where-disjoint q p r apart within xs)

  module _ (key : A → ℕ) where
    -- Ids fall along the list and stay under the bound.
    abbrev pub Below : ℕ → List A → Type 0
    Below n [] = Unit {0}
    Below n (x ∷ xs) = (key x < n) × Below (key x) xs

    pub Below-mono : (m n : ℕ) (xs : List A) → m ≤ n → Below m xs → Below n xs
    Below-mono m n [] h b = tt
    Below-mono m n (x ∷ xs) h b = (omega arith, b.1)

    pub update_where-Below :
        (p : A → Bool) (f : A → A)
        → ((x : A) → key (f x) ≡ key x)
        → (n : ℕ) (xs : List A) → Below n xs
        → Below n (update_where p f xs)
    unfolding update_where
    update_where-Below p f same n [] b = tt
    update_where-Below p f same n (x ∷ xs) b = elim (Bool-cases (p x)) [
      | inl e ↦ rw (e, same x) (b.0, update_where-Below p f same (key x) xs b.1)
      | inr e ↦ rw e (b.0, update_where-Below p f same (key x) xs b.1)
    ]

    pub count_key_above :
        (k n : ℕ) (xs : List A) → Below n xs → n ≤ k → count_where (λ x. key x == k) xs ≡ 0
    unfolding count_where
    count_key_above k n [] b h = refl
    count_key_above k n (x ∷ xs) b h = ground (arith, count_key_above k (key x) xs b.1)

    -- An id belongs to one row at most.
    pub count_key-le-one :
        (k n : ℕ) (xs : List A) → Below n xs → count_where (λ x. key x == k) xs ≤ 1
    unfolding count_where
    count_key-le-one k n [] b = omega arith
    count_key-le-one k n (x ∷ xs) b =
        ground (arith, count_key-le-one k (key x) xs b.1, count_key_above k (key x) xs b.1)
