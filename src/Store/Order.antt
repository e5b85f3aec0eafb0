-- ===== src/Store/Order.antt =====
-- `ORDER BY`: the rows of a query in the order that it asks for.
use mathlib.Core.List.{Perm}
use mathlib.Core.List.Perm
use agent_inbox_question.Base.{
  Bool, true, false, List, [], ◌∷◌, if◌then◌else◌, ◌≡◌, inl, inr, Bool-cases,
}

module _ {A : Type 0} (before : A → A → Bool) where
  unfoldable pub place : A → List A → List A
  place x [] = x ∷ []
  place x (y ∷ ys) = if before x y then x ∷ y ∷ ys else y ∷ place x ys

  unfoldable pub order_by : List A → List A
  unfolding place
  order_by [] = []
  order_by (x ∷ xs) = place x (order_by xs)

  place-perm : (x : A) (ys : List A) → Perm (place x ys) (x ∷ ys)
  unfolding place
  place-perm x [] = Perm.refl (x ∷ [])
  place-perm x (y ∷ ys) = elim (Bool-cases (before x y)) [
    | inl e ↦ rw e (Perm.refl (x ∷ y ∷ ys))
    | inr e ↦ rw e (Perm.trans (Perm.cons y (place-perm x ys)) (Perm.swap x y ys))
  ]

  -- The rows are the same ones.
  pub order_by-perm : (xs : List A) → Perm (order_by xs) xs
  unfolding order_by
  order_by-perm [] = Perm.refl []
  order_by-perm (x ∷ xs) = Perm.trans (place-perm x (order_by xs)) (Perm.cons x (order_by-perm xs))

  -- Each row stands before the rows behind it.
  abbrev pub IsOrdered : List A → Type 0
  IsOrdered [] = Unit {0}
  IsOrdered (x ∷ []) = Unit {0}
  IsOrdered (x ∷ y ∷ ys) = (before x y ≡ true) × IsOrdered (y ∷ ys)

  module _ (total : (x y : A) → before x y ≡ false → before y x ≡ true) where
    -- A row that is placed behind `y` leaves `y` in front.
    place_behind :
        (y x : A) (ys : List A)
        → before y x ≡ true
        → IsOrdered (y ∷ ys)
        → IsOrdered (place x ys)
        → IsOrdered (y ∷ place x ys)
    unfolding place
    place_behind y x [] b o p = (b, tt)
    place_behind y x (z ∷ zs) b o p = elim (Bool-cases (before x z)) [
      | inl e ↦ rw e (b, (e, o.1))
      | inr e ↦ rw e (o.0, rw (e, place) at p)
    ]

    place-IsOrdered : (x : A) (ys : List A) → IsOrdered ys → IsOrdered (place x ys)
    unfolding place
    place-IsOrdered x [] o = tt
    place-IsOrdered x (y ∷ ys) o = elim (Bool-cases (before x y)) [
      | inl e ↦ rw e (e, o)
      | inr e ↦ rw e (place_behind y x ys (total x y e) o (place-IsOrdered x ys (behind y ys o)))
    ]
      where
        behind : (y : A) (ys : List A) → IsOrdered (y ∷ ys) → IsOrdered ys
        behind y [] o = tt
        behind y (z ∷ zs) o = o.1

    pub order_by-IsOrdered : (xs : List A) → IsOrdered (order_by xs)
    unfolding order_by
    order_by-IsOrdered [] = tt
    order_by-IsOrdered (x ∷ xs) = place-IsOrdered x (order_by xs) (order_by-IsOrdered xs)
