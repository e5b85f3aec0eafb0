-- ===== src/Store/Selection/Rows.antt =====
-- The rows that a query gives, and the first of them.
use mathlib.Core.Option
use mathlib.Core.List.{Memᴰ}
use mathlib.Core.List.Memᴰ
use mathlib.Core.List.Memᴰ.{head, tail}
use agent_inbox_question.Base.{
  Bool, true, Option, none, some, List, [], ◌∷◌, ◌≡◌, refl, sym, ◌⊎◌, inl, inr, Bool-cases, false,
  ap, ◌∙◌,
}
use agent_inbox_question.Store.Selection.{row_onto, rows_of, earlier, first_row}

module _ {A B : Type 0} (columns : A → Option B) where
  from_onto :
      (y : B) (o : Option B) (rest : List B) → Memᴰ y (row_onto o rest) → (o ≡ some y) ⊎ Memᴰ y rest
  from_onto y none rest m = inr m
  from_onto y (some z) rest (head e) = inl (ap some (sym e))
  from_onto y (some z) rest (tail m) = inr m

  -- A row that is given comes from a row of the table.
  pub rows_of-from :
      (y : B) (xs : List A)
      → Memᴰ y (rows_of columns xs)
      → (x : A) × Memᴰ x xs × (columns x ≡ some y)
  unfolding rows_of
  rows_of-from y [] m = absurd (Memᴰ.not-nil m)
  rows_of-from y (x ∷ xs) m = elim (from_onto y (columns x) (rows_of columns xs) m) [
    | inl e ↦ (x, head refl, e)
    | inr n ↦ let (z, i, f) = rows_of-from y xs n in (z, tail i, f)
  ]

  onto_keep : (y : B) (o : Option B) (rest : List B) → Memᴰ y rest → Memᴰ y (row_onto o rest)
  onto_keep y none rest m = m
  onto_keep y (some z) rest m = tail m

  pub rows_of_keep :
      (x : A) (y : B) (xs : List A) → Memᴰ x xs → columns x ≡ some y → Memᴰ y (rows_of columns xs)
  unfolding rows_of
  rows_of_keep x y [] m h = absurd (Memᴰ.not-nil m)
  rows_of_keep x y (z ∷ xs) (head e) h = rw (← e, h) (head refl)
  rows_of_keep x y (z ∷ xs) (tail m) h = onto_keep y (columns z) _ (rows_of_keep x y xs m h)

module _ {B : Type 0} (before : B → B → Bool) where
  earlier_one : (y : B) (o : Option B) → (earlier before y o ≡ y) ⊎ (o ≡ some (earlier before y o))
  earlier_one y none = inl refl
  earlier_one y (some z) = elim (Bool-cases (before y z)) [
    | inl e ↦ inl (rw e refl)
    | inr e ↦ inr (rw e refl)
  ]

  -- The first row is one of the rows.
  pub first_row-Mem : (ys : List B) {z : B} → first_row before ys ≡ some z → Memᴰ z ys
  unfolding first_row
  first_row-Mem [] h = cc
  first_row-Mem (y ∷ ys) {z} h =
      let w = Option.some_inj.0 h in
      elim (earlier_one y (first_row before ys)) [
        | inl e ↦ head (sym w ∙ e)
        | inr e ↦ tail (first_row-Mem ys (e ∙ h))
      ]

  pub some_first : (y : B) (ys : List B) → Memᴰ y ys → (z : B) × (first_row before ys ≡ some z)
  unfolding first_row
  some_first y [] m = absurd (Memᴰ.not-nil m)
  some_first y (x ∷ ys) m = (_, refl)

  module _ (le : B → B → Bool)
      (transitive : (x y z : B) → le x y ≡ true → le y z ≡ true → le x z ≡ true)
      (reflexive : (x : B) → le x x ≡ true) (yes : (x y : B) → before x y ≡ true → le x y ≡ true)
      (no : (x y : B) → before x y ≡ false → le y x ≡ true) where
    earlier-le : (y : B) (o : Option B) → le (earlier before y o) y ≡ true
    earlier-le y none = reflexive y
    earlier-le y (some z) = elim (Bool-cases (before y z)) [
      | inl e ↦ rw e (reflexive y)
      | inr e ↦ rw e (no y z e)
    ]

    earlier-le-rest : (y z : B) (o : Option B) → o ≡ some z → le (earlier before y o) z ≡ true
    earlier-le-rest y z o h =
        rw h
          (elim (Bool-cases (before y z)) [ inl e ↦ rw e (yes y z e) | inr e ↦ rw e (reflexive z) ])

    -- No row lies before the first one.
    pub first_row-le :
        (ys : List B) (z y : B) → first_row before ys ≡ some z → Memᴰ y ys → le z y ≡ true
    unfolding first_row
    first_row-le [] z y h m = absurd (Memᴰ.not-nil m)
    first_row-le (x ∷ ys) z y h (head e) =
        rw (e, ← Option.some_inj.0 h) (earlier-le x (first_row before ys))
    first_row-le (x ∷ ys) z y h (tail m) =
        let (w, f) = some_first y ys m in
        rw (← Option.some_inj.0 h)
          (transitive _ w y (earlier-le-rest x w (first_row before ys) f) (first_row-le ys w y f m))
