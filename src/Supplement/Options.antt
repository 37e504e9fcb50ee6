-- ===== src/Supplement/Options.antt =====
-- The options of a select, `uniqueOptions` of ActionListPage.tsx: the values that occur, each once, in
-- the order of their first occurrence; label and value are the same.
use profit_decision_engine.Prelude.{
  String, List, [], ◌∷◌, ◌++◌, Option, none, some, Bool, true, false, ◌||◌, ◌==◌, ◌≡◌, ◌↔◌, refl,
  elem, truthy, if◌then◌else◌, arith, inl, inr, Bool-cases, eq_iff, sym, ap, subst, ◌∙◌,
}

-- `set.add(value)`
abbrev add : List String → String → List String
add set value = if elem value set then set else set ++ value ∷ []

-- `new Set(values)` on top of a set
unfoldable pub add_all : List String → List String → List String
add_all set [] = set
add_all set (value ∷ values) = add_all (add set value) values

-- `values.filter((value): value is string => Boolean(value))`
unfoldable pub present : List (Option String) → List String
present [] = []
present (none ∷ values) = present values
present (some value ∷ values) =
    let rest = present values in if truthy value then value ∷ rest else rest

unfoldable pub unique_options : List (Option String) → List String
unfolding add_all present
unique_options values = add_all [] (present values)

abbrev pub occurs : String → List (Option String) → Bool
occurs x [] = false
occurs x (none ∷ values) = occurs x values
occurs x (some value ∷ values) = value == x || occurs x values

-- No value stands in the list twice.
abbrev pub Unique : List String → Type 0
Unique [] = Unit
Unique (x ∷ xs) = (elem x xs ≡ false) × Unique xs

elem-append : (x : String) (xs ys : List String) → elem x (xs ++ ys) ≡ (elem x xs || elem x ys)
elem-append x [] ys = refl
elem-append x (y ∷ xs) ys = ground (arith, elem-append x xs ys)

elem-add :
    (x value : String) (set : List String) → elem x (add set value) ≡ (elem x set || value == x)
elem-add x value set = elim (Bool-cases (elem value set)) [
  | inl e ↦ elim (Bool-cases (value == x)) [
    | inl s ↦
        let same : value ≡ x = (eq_iff value x).0 s in
        let known : elem x set ≡ true = subst (λ v. elem v set ≡ true) same e in
        rw e (rw known refl)
    | inr s ↦ rw (e, s) (ground arith)
  ]
  | inr e ↦ rw e (elem-append x set (value ∷ []) ∙ ground arith)
]

elem-add_all :
    (x : String) (set values : List String)
    → elem x (add_all set values) ≡ (elem x set || elem x values)
unfolding add_all
elem-add_all x set [] = ground arith
elem-add_all x set (value ∷ values) =
    elem-add_all x (add set value) values ∙ rw (elem-add x value set) (ground arith)

elem-present :
    (x : String) (values : List (Option String))
    → (elem x (present values) ≡ true) ↔ ((truthy x ≡ true) × (occurs x values ≡ true))
unfolding present
elem-present x [] = ((λ h. cc), (λ h. cc))
elem-present x (none ∷ values) = elem-present x values
elem-present x (some value ∷ values) =
    let ih = elem-present x values in
    elim (Bool-cases (value == x)) [
      | inl s ↦
          let same : truthy value ≡ truthy x = ap truthy ((eq_iff value x).0 s) in
          elim (Bool-cases (truthy value)) [
            | inl t ↦ rw (t, s) ((λ h. (sym same ∙ t, refl)), (λ h. refl))
            | inr t ↦
                rw (t, s)
                  (
                    (λ h. ((ih.0 h).0, refl)),
                    (λ h. cc (let g : truthy x ≡ false = sym same ∙ t in g)),
                  )
          ]
      | inr s ↦ elim (Bool-cases (truthy value)) [ inl t ↦ rw (t, s) ih | inr t ↦ rw (t, s) ih ]
    ]

Unique-append :
    (xs : List String) (x : String) → Unique xs → elem x xs ≡ false → Unique (xs ++ x ∷ [])
Unique-append [] x u h = (refl, tt)
Unique-append (y ∷ xs) x u h =
    let apart : ((y == x) ≡ false) × (elem x xs ≡ false) = ground arith in
    (
      elem-append y xs (x ∷ []) ∙ ground (arith, u.0, eq_iff y x, eq_iff x y),
      Unique-append xs x u.1 apart.1,
    )

Unique-add : (set : List String) (value : String) → Unique set → Unique (add set value)
Unique-add set value u = elim (Bool-cases (elem value set)) [
  | inl e ↦ rw e u
  | inr e ↦ rw e (Unique-append set value u e)
]

Unique-add_all : (set values : List String) → Unique set → Unique (add_all set values)
unfolding add_all
Unique-add_all set [] u = u
Unique-add_all set (value ∷ values) u =
    Unique-add_all (add set value) values (Unique-add set value u)

-- The options refine the set of the values that occur: a text is offered exactly if it occurs and is
-- not empty, and no text is offered twice.
pub unique_options-occurs :
    (values : List (Option String))
    → ((x : String)
        → (elem x (unique_options values) ≡ true) ↔ ((truthy x ≡ true) × (occurs x values ≡ true)))
      × Unique (unique_options values)
unfolding unique_options
unique_options-occurs values = (
  (λ x.
      let e = elem-add_all x [] (present values) in
      ((λ h. (elem-present x values).0 (sym e ∙ h)), (λ h. e ∙ (elem-present x values).1 h))),
  Unique-add_all [] (present values) tt,
)
