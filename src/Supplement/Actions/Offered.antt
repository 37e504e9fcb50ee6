-- ===== src/Supplement/Actions/Offered.antt =====
-- What ActionListPage.tsx shows for a value that one of its selects offers.
use profit_decision_engine.Prelude.{
  String, List, [], ◌∷◌, ◌++◌, map, Option, none, some, Bool, true, false, ◌&&◌, ◌||◌, ◌==◌, ◌≡◌,
  ◌≢◌, refl, arith, sym, ap, ◌∙◌, Bool-cases, inl, inr, any, filter, elem, truthy,
}
use profit_decision_engine.Supplement.Data.{Decision, ActionItem}
use profit_decision_engine.Supplement.Options.{unique_options, occurs, unique_options-occurs}
use profit_decision_engine.Supplement.Actions.View.{ListPage, initial, rows, row_passes}
use profit_decision_engine.Supplement.Texts.{fits}
use profit_decision_engine.Supplement.Actions.Cards.{lane_states}
use profit_decision_engine.Supplement.Actions.Pages.{
  Filter, store, owner, execution, step, chose, loaded,
}

filter-ne-empty {ℓ} : {A : Type ℓ} (p : A → Bool) (xs : List A) → any p xs ≡ true → filter p xs ≢ []
filter-ne-empty p [] h = cc
filter-ne-empty p (x ∷ xs) h = elim (Bool-cases (p x)) [
  | inl e ↦ λ k. cc (let g : x ∷ filter p xs ≡ [] = rw e at k in g)
  | inr e ↦ λ k. filter-ne-empty p xs (rw e at h) (rw e at k)
]

any_mono {ℓ} :
    {A : Type ℓ} (p q : A → Bool) (xs : List A)
    → ((x : A) → p x ≡ true → q x ≡ true)
    → any p xs ≡ true
    → any q xs ≡ true
any_mono p q [] m h = h
any_mono p q (x ∷ xs) m h = elim (Bool-cases (p x)) [
  | inl e ↦ rw (m x e) refl
  | inr e ↦ elim (Bool-cases (q x)) [
    | inl f ↦ rw f refl
    | inr f ↦ rw f (any_mono p q xs m (rw e at h))
  ]
]

-- A value that occurs among the texts of the items is the text of one of them.
abbrev is_value : String → Option String → Bool
is_value s none = false
is_value s (some v) = v == s

any-occurs :
    (f : Decision → Option String) (s : String) (source : List Decision)
    → occurs s (map f source) ≡ true
    → any (λ item. is_value s (f item)) source ≡ true
any-occurs f s [] h = h
any-occurs f s (item ∷ source) h = next (f item) (any-occurs f s source) h
  where
    next :
        (o : Option String)
        → (occurs s (map f source) ≡ true → any (λ i. is_value s (f i)) source ≡ true)
        → occurs s (o ∷ map f source) ≡ true
        → (is_value s o || any (λ i. is_value s (f i)) source) ≡ true
    next none ih h = ih h
    next (some v) ih h = ground (arith, ih)

occurs-append :
    (s : String) (xs ys : List (Option String)) → occurs s (xs ++ ys) ≡ (occurs s xs || occurs s ys)
occurs-append s [] ys = refl
occurs-append s (none ∷ xs) ys = occurs-append s xs ys
occurs-append s (some x ∷ xs) ys = ground (arith, occurs-append s xs ys)

lanes-occurs :
    (s : String) (lanes : List ActionItem)
    → occurs s (map (λ lane. some lane.execution_state) lanes)
      ≡ any (λ lane. lane.execution_state == s) lanes
lanes-occurs s [] = refl
lanes-occurs s (lane ∷ lanes) = ap (λ b. lane.execution_state == s || b) (lanes-occurs s lanes)

any-lane_states :
    (s : String) (source : List Decision)
    → occurs s (lane_states source)
      ≡ any (λ item. any (λ lane. lane.execution_state == s) item.actions) source
unfolding lane_states
any-lane_states s [] = refl
any-lane_states s (item ∷ source) =
    occurs-append s (map (λ lane. some lane.execution_state) item.actions) (lane_states source)
    ∙ rw (lanes-occurs s item.actions, any-lane_states s source) refl

-- The selects whose options are taken from the loaded decisions, and that filter them on the page.
pub data Select : Type 0 where
  store_select owner_select execution_select : Select

abbrev pub filter_of : Select → Filter
filter_of store_select = store
filter_of owner_select = owner
filter_of execution_select = execution

-- What the options of a select are taken from.
abbrev pub values_of : Select → List Decision → List (Option String)
values_of store_select source = map (λ item. some item.store) source
values_of owner_select source = map (λ item. item.operator_ref) source
values_of execution_select source = lane_states source

-- The page with its items and no filter chosen, and after a choice in one of the selects.
abbrev pub after_choice : Filter → String → List Decision → ListPage
unfolding step
after_choice f s source = step (chose f (some s)) (step (loaded source) initial)

module _ (lower : String → String) (s : String) (source : List Decision)
    (given : truthy s ≡ true) where
  chosen_store :
      occurs s (map (λ item. some item.store) source) ≡ true
      → rows lower (after_choice store s source) ≢ []
  unfolding rows row_passes step
  chosen_store h = filter-ne-empty (row_passes lower (after_choice store s source)) source (
      any_mono (λ item. is_value s (some item.store)) _ source (λ item e. rw (given, e) refl)
        (any-occurs (λ item. some item.store) s source h))

  owner_fits : (o : Option String) → is_value s o ≡ true → (fits (some s) o && true) ≡ true
  owner_fits none e = cc
  owner_fits (some v) e = rw (given, e) refl

  chosen_owner :
      occurs s (map (λ item. item.operator_ref) source) ≡ true
      → rows lower (after_choice owner s source) ≢ []
  unfolding rows row_passes step
  chosen_owner h = filter-ne-empty (row_passes lower (after_choice owner s source)) source (
      any_mono (λ item. is_value s item.operator_ref) _ source
        (λ item e. owner_fits item.operator_ref e)
        (any-occurs (λ item. item.operator_ref) s source h))

  chosen_execution :
      occurs s (lane_states source) ≡ true → rows lower (after_choice execution s source) ≢ []
  unfolding rows row_passes step
  chosen_execution h = filter-ne-empty (row_passes lower (after_choice execution s source)) source (
      any_mono (λ item. any (λ lane. lane.execution_state == s) item.actions) _ source
        (λ item e. rw (given, e) refl) (sym (any-lane_states s source) ∙ h))

-- On a page with loaded decisions and no other filter, every store, operator or execution state that
-- a select offers leaves at least one row when it is chosen.
pub chosen-rows :
    (lower : String → String) (select : Select) (s : String) (source : List Decision)
    → elem s (unique_options (values_of select source)) ≡ true
    → rows lower (after_choice (filter_of select) s source) ≢ []
chosen-rows lower store_select s source h =
    let o = ((unique_options-occurs (values_of store_select source)).0 s).0 h in
    chosen_store lower s source o.0 o.1
chosen-rows lower owner_select s source h =
    let o = ((unique_options-occurs (values_of owner_select source)).0 s).0 h in
    chosen_owner lower s source o.0 o.1
chosen-rows lower execution_select s source h =
    let o = ((unique_options-occurs (values_of execution_select source)).0 s).0 h in
    chosen_execution lower s source o.0 o.1
