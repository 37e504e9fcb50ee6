-- ===== src/History/Laws.antt =====
-- What a submission, a reset and a change of page do, and what the milestones say.
use profit_decision_engine.Prelude.{
  String, ℕ, List, [], ◌∷◌, some, true, false, ◌≡◌, refl, ◌⊎◌, arith, Bool-cases, inl, inr, lookup,
  eq_iff, subst, sym, truthy, text_lt,
}
use profit_decision_engine.Prelude.Decimal.{Number, pos}
use profit_decision_engine.Api.Filters.{HistoryFilters}
use profit_decision_engine.Schema.{HistoryItem}
use profit_decision_engine.History.{
  HistoryPage, submit, reset, choose_limit, go_to, edit, milestones, period_reversed,
}

-- Both periods are given and the first lies after the second, in the order of texts.
pub record IsReversed (f : HistoryFilters) : Type 0 where
  pub start_given : truthy f.period_start ≡ true
  pub end_given : truthy f.period_end ≡ true
  pub after : text_lt f.period_end f.period_start ≡ true

not-IsReversed : (f : HistoryFilters) → period_reversed f ≡ false → ¬ IsReversed f
not-IsReversed f e r =
    let g : period_reversed f ≡ true = rw (r.start_given, r.end_given, r.after) refl in cc

-- A submission with a reversed period changes only the message; any other one clears the message
-- and applies the draft from its first page on.
pub submit-cases :
    (page : HistoryPage)
    → (IsReversed page.draft × (submit page ≡ record page { validation = "起始业务期间不得晚于结束期间。" }))
      ⊎ (¬ IsReversed page.draft
          × (submit page ≡ record {
            draft = record page.draft { page = pos 1 };
            filters = record page.draft { page = pos 1 };
            validation = "";
          }))
unfolding submit
submit-cases page = elim (Bool-cases (period_reversed page.draft)) [
  | inl e ↦ inl (
    record { start_given = ground arith; end_given = ground arith; after = ground arith },
    rw e refl,
  )
  | inr e ↦ inr (not-IsReversed page.draft e, rw e refl)
]

-- The applied filters never have a reversed period.
abbrev pub HasOrder : HistoryPage → Type 0
HasOrder page = ¬ IsReversed page.filters

-- What the user does on the page.
pub data Event : Type 0 where
  edits : HistoryFilters → Event
  submits resets : Event
  limits : ℕ → Event
  turns : Number → Event

unfoldable pub step : HistoryPage → Event → HistoryPage
unfolding submit reset choose_limit go_to edit
step page (edits draft) = edit page draft
step page submits = submit page
step page resets = reset page
step page (limits n) = choose_limit page n
step page (turns n) = go_to page n

abbrev pub run : HistoryPage → List Event → HistoryPage
run page [] = page
run page (event ∷ rest) = run (step page event) rest

step-HasOrder : (page : HistoryPage) (event : Event) → HasOrder page → HasOrder (step page event)
unfolding step
step-HasOrder page (edits draft) h = h
step-HasOrder page resets h = λ r. cc r.start_given
step-HasOrder page (limits n) h =
    λ r. h (record { start_given = r.start_given; end_given = r.end_given; after = r.after })
step-HasOrder page (turns n) h =
    λ r. h (record { start_given = r.start_given; end_given = r.end_given; after = r.after })
step-HasOrder page submits h = elim (submit-cases page) [
  | inl (r, e) ↦ subst HasOrder (sym e) h
  | inr (r, e) ↦
      subst HasOrder (sym e)
        (λ q. r (record { start_given = q.start_given; end_given = q.end_given; after = q.after }))
]

-- If the filters that are applied have no reversed period, then no sequence of edits, submissions,
-- resets and changes of page or page size applies filters that have one.
pub run-HasOrder :
    (page : HistoryPage) (events : List Event) → HasOrder page → HasOrder (run page events)
run-HasOrder page [] h = h
run-HasOrder page (event ∷ rest) h =
    run-HasOrder (step page event) rest (step-HasOrder page event h)

-- A row that shows a business result as done also shows the business action as done.
pub milestones_result :
    (item : HistoryItem)
    → lookup "业务结果" (milestones item) ≡ some true
    → lookup "运营动作" (milestones item) ≡ some true
unfolding milestones
milestones_result item h =
    let s : String = item.business_state in
    ground (
      arith,
      eq_iff s "result_recorded",
      eq_iff "result_recorded" s,
      eq_iff s "closed",
      eq_iff "closed" s,
    )
