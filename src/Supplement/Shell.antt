-- ===== src/Supplement/Shell.antt =====
-- components/AppShell.tsx: the menu, the selected entry and the redirect of who is not signed in.
use profit_decision_engine.Prelude.{
  String, List, [], ◌∷◌, ◌++◌, map, Option, none, some, Bool, true, false, ◌==◌, ◌≡◌, ◌↔◌, refl,
  starts_with, find, elem, if◌then◌else◌, Bool-cases, inl, inr, eq_refl, subst, sym, ◌⊎◌,
}
use profit_decision_engine.Supplement.Data.{Role, operator, supervisor, procurement, AuthStatus}

-- Where the shell navigates to, `none` while it loads or when the user is signed in.
unfoldable pub session_redirect : Bool → Option AuthStatus → Option String
session_redirect true status = none
session_redirect false none = some "/login?reason=session"
session_redirect false (some status) =
    if status.authenticated then none else some "/login?reason=session"

abbrev pub is_procurement : Option Role → Bool
is_procurement (some procurement) = true
is_procurement _ = false

-- `menuItems`: keys and labels.
unfoldable pub menu_items : Option Role → List (String × String)
menu_items role =
    ("/workspace", "工作台")
      ∷ ("/actions", "行动清单")
      ∷ (if is_procurement role then [] else ("/batches", "数据批次") ∷ [])
    ++ ("/trace", "追溯记录") ∷ []

abbrev first_key : Option (String × String) → String
first_key none = "/workspace"
first_key (some (key, label)) = key

-- `selected`
unfoldable pub selected : String → Option Role → String
unfolding menu_items
selected location role = first_key (find (λ item. starts_with location item.0) (menu_items role))

has_batches :
    (role : Option Role)
    → (elem "/batches" (map (λ item. item.0) (menu_items role)) ≡ true)
      ↔ (is_procurement role ≡ false)
unfolding menu_items
has_batches none = ((λ e. refl), (λ e. refl))
has_batches (some operator) = ((λ e. refl), (λ e. refl))
has_batches (some supervisor) = ((λ e. refl), (λ e. refl))
has_batches (some procurement) = ((λ e. cc), (λ e. cc))

-- The key of the first item that passes a test is a key of the list.
elem-cons : (x y : String) (ys : List String) → elem x ys ≡ true → elem x (y ∷ ys) ≡ true
elem-cons x y ys h = elim (Bool-cases (y == x)) [ inl e ↦ rw e refl | inr e ↦ rw e h ]

found_or_default :
    (test : String × String → Bool) (items : List (String × String))
    → (find test items ≡ none)
      ⊎ (elem (first_key (find test items)) (map (λ item. item.0) items) ≡ true)
found_or_default test [] = inl refl
found_or_default test (item ∷ rest) = elim (Bool-cases (test item)) [
  | inl e ↦ rw e (inr (rw (eq_refl item.0) refl))
  | inr e ↦
      let same : find test (item ∷ rest) ≡ find test rest = rw e refl in
      subst (λ o. (o ≡ none) ⊎ (elem (first_key o) (map (λ i. i.0) (item ∷ rest)) ≡ true))
        (sym same)
        (elim (found_or_default test rest) [
          | inl f ↦ inl f
          | inr f ↦ inr (elem-cons (first_key (find test rest)) item.0 (map (λ i. i.0) rest) f)
        ])
]

first_key-elem :
    (test : String × String → Bool) (items : List (String × String))
    → elem "/workspace" (map (λ item. item.0) items) ≡ true
    → elem (first_key (find test items)) (map (λ item. item.0) items) ≡ true
first_key-elem test items h = elim (found_or_default test items) [ inl e ↦ rw e h | inr e ↦ e ]

-- The selected entry is one of the menu; the batches are in the menu exactly for other roles than
-- procurement, so they are never selected for procurement.
pub selected-menu_items :
    (location : String) (role : Option Role)
    → (elem (selected location role) (map (λ item. item.0) (menu_items role)) ≡ true)
      × ((elem "/batches" (map (λ item. item.0) (menu_items role)) ≡ true)
          ↔ (is_procurement role ≡ false))
unfolding selected menu_items
selected-menu_items location role =
    (first_key-elem (λ item. starts_with location item.0) (menu_items role) refl, has_batches role)
