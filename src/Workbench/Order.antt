-- ===== src/Workbench/Order.antt =====
-- The tasks of the workbench stand by priority, in their former order within one priority.
use profit_decision_engine.Prelude.{
  ℕ, List, [], ◌∷◌, true, false, ◌≡◌, ◌≤◌, refl, ap, ◌∙◌, arith, Bool-cases, inl, inr, leb, eqb,
  eqb→eq, filter, All, sym,
}
use profit_decision_engine.Schema.{ActionItem}
use profit_decision_engine.Workbench.{
  priority, insert, sort, filtered_items, matches, WorkbenchFilters,
}

-- Every item stands before items of the same or a later priority only.
pub data IsOrdered : List ActionItem → Type 0 where
  nil : IsOrdered []
  cons :
      (x : ActionItem) (xs : List ActionItem)
      → All (λ y. priority x ≤ priority y) xs
      → IsOrdered xs
      → IsOrdered (x ∷ xs)

insert-All :
    (P : ActionItem → Type 0) (x : ActionItem) (ys : List ActionItem)
    → P x
    → All P ys
    → All P (insert x ys)
unfolding insert
insert-All P x [] p h = (p, tt)
insert-All P x (y ∷ ys) p h = elim (Bool-cases (leb (priority x) (priority y))) [
  | inl e ↦ rw e (p, h)
  | inr e ↦ rw e (h.0, insert-All P x ys p h.1)
]

All-later :
    (m n : ℕ) (ys : List ActionItem)
    → m ≤ n
    → All (λ y. n ≤ priority y) ys
    → All (λ y. m ≤ priority y) ys
All-later m n [] h a = tt
All-later m n (y ∷ ys) h a = let b = a.0 in (omega (arith, h, b), All-later m n ys h a.1)

insert-IsOrdered : (x : ActionItem) (ys : List ActionItem) → IsOrdered ys → IsOrdered (insert x ys)
unfolding insert
insert-IsOrdered x [] h = cons x [] tt nil
insert-IsOrdered x (y ∷ ys) (cons _ _ a o) = elim (Bool-cases (leb (priority x) (priority y))) [
  | inl e ↦
      let le : priority x ≤ priority y = ground arith in
      rw e (cons x (y ∷ ys) (le, All-later (priority x) (priority y) ys le a) (cons y ys a o))
  | inr e ↦
      let le : priority y ≤ priority x = ground arith in
      rw e (
        cons y (insert x ys) (insert-All (λ z. priority y ≤ priority z) x ys le a)
          (insert-IsOrdered x ys o))
]

sort-IsOrdered : (xs : List ActionItem) → IsOrdered (sort xs)
unfolding sort
sort-IsOrdered [] = nil
sort-IsOrdered (x ∷ xs) = insert-IsOrdered x (sort xs) (sort-IsOrdered xs)

-- The items of one priority.
abbrev pub of_priority : ℕ → List ActionItem → List ActionItem
of_priority p = filter (λ item. eqb (priority item) p)

of_priority-keep :
    (p : ℕ) (z : ActionItem) (l : List ActionItem)
    → eqb (priority z) p ≡ true
    → of_priority p (z ∷ l) ≡ z ∷ of_priority p l
of_priority-keep p z l h = rw h refl

of_priority-drop :
    (p : ℕ) (z : ActionItem) (l : List ActionItem)
    → eqb (priority z) p ≡ false
    → of_priority p (z ∷ l) ≡ of_priority p l
of_priority-drop p z l h = rw h refl

of_priority-cons :
    (p : ℕ) (x : ActionItem) (ys zs : List ActionItem)
    → of_priority p ys ≡ of_priority p zs
    → of_priority p (x ∷ ys) ≡ of_priority p (x ∷ zs)
of_priority-cons p x ys zs h = elim (Bool-cases (eqb (priority x) p)) [
  | inl e ↦ rw e (ap (λ l. x ∷ l) h)
  | inr e ↦ rw e h
]

of_priority-insert :
    (p : ℕ) (x : ActionItem) (ys : List ActionItem)
    → of_priority p (insert x ys) ≡ of_priority p (x ∷ ys)
unfolding insert
of_priority-insert p x [] = refl
of_priority-insert p x (y ∷ ys) = elim (Bool-cases (leb (priority x) (priority y))) [
  | inl e ↦ rw e refl
  | inr e ↦ rw e (later e (of_priority-insert p x ys))
]
  where
    later :
        leb (priority x) (priority y) ≡ false
        → of_priority p (insert x ys) ≡ of_priority p (x ∷ ys)
        → of_priority p (y ∷ insert x ys) ≡ of_priority p (x ∷ y ∷ ys)
    later e ih = elim (Bool-cases (eqb (priority y) p)) [
      | inr f ↦
          of_priority-drop p y (insert x ys) f
          ∙ (ih ∙ of_priority-cons p x ys (y ∷ ys) (sym (of_priority-drop p y ys f)))
      | inl f ↦
          let other : eqb (priority x) p ≡ false = ground (arith, eqb→eq (priority y) p f) in
          of_priority-keep p y (insert x ys) f
          ∙ (ap (λ l. y ∷ l) (ih ∙ of_priority-drop p x ys other)
              ∙ sym (of_priority-drop p x (y ∷ ys) other ∙ of_priority-keep p y ys f))
    ]

of_priority-sort : (p : ℕ) (xs : List ActionItem) → of_priority p (sort xs) ≡ of_priority p xs
unfolding sort
of_priority-sort p [] = refl
of_priority-sort p (x ∷ xs) =
    of_priority-insert p x (sort xs) ∙ of_priority-cons p x (sort xs) xs (of_priority-sort p xs)

-- The tasks that the workbench shows are ordered by the priority of their state; within one
-- priority they are exactly the matching tasks, in the order in which they were answered.
pub filtered_items-IsOrdered :
    (f : WorkbenchFilters) (items : List ActionItem)
    → IsOrdered (filtered_items f items)
      × ((p : ℕ)
          → of_priority p (filtered_items f items) ≡ of_priority p (filter (matches f) items))
unfolding filtered_items
filtered_items-IsOrdered f items =
    (sort-IsOrdered (filter (matches f) items), λ p. of_priority-sort p (filter (matches f) items))
