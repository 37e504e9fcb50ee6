-- ===== src/Supplement/Trace/Filters.antt =====
-- What the filters of TracePage.tsx leave.
use profit_decision_engine.Prelude.{
  String, Bool, List, [], ◌∷◌, some, true, false, ◌&&◌, ◌≡◌, refl, ap, sym, subst, filter, text_lt,
  ◌==◌, eq_iff, Bool-cases, inl, inr, ◌∙◌,
}
use profit_decision_engine.Prelude.TextOrder.{text_lt_irrefl, text_lt_total}
use profit_decision_engine.Supplement.Data.{TraceEvent}
use profit_decision_engine.Supplement.Trace.View.{TracePage, clear, rows, passes, day_of}
use profit_decision_engine.Supplement.Texts.{in_range}

in_range_day : (d day : String) → in_range (some (d, d)) day ≡ (day == d)
in_range_day d day = elim (Bool-cases (day == d)) [
  | inl e ↦
      let same : day ≡ d = (eq_iff day d).0 e in
      let a : text_lt day d ≡ false =
        subst (λ x. text_lt day x ≡ false) same (text_lt_irrefl day) in
      let b : text_lt d day ≡ false =
        subst (λ x. text_lt x day ≡ false) same (text_lt_irrefl day) in
      rw (a, b) (sym e)
  | inr e ↦ elim (Bool-cases (text_lt day d)) [
    | inl a ↦ rw (a, e) refl
    | inr a ↦ elim (Bool-cases (text_lt d day)) [
      | inl b ↦ rw (a, b, e) refl
      | inr b ↦ cc ((eq_iff day d).1 (text_lt_total day d a b), e)
    ]
  ]
]

and_true : (b : Bool) → (b && true) ≡ b
and_true true = refl
and_true false = refl

filter_all : (source : List TraceEvent) → filter (λ item. true) source ≡ source
filter_all [] = refl
filter_all (item ∷ source) = ap (λ l. item ∷ l) (filter_all source)

module _ (lower : String → String) where
  passes-day :
      (page : TracePage) (d : String) (item : TraceEvent)
      → passes lower (record (clear page) { date_range = some (d, d) }) item ≡ (day_of item == d)
  unfolding passes clear
  passes-day page d item =
      and_true (in_range (some (d, d)) (day_of item)) ∙ in_range_day d (day_of item)

  filter-day :
      (page : TracePage) (d : String) (source : List TraceEvent)
      → filter (passes lower (record (clear page) { date_range = some (d, d) })) source
        ≡ filter (λ item. day_of item == d) source
  filter-day page d [] = refl
  filter-day page d (item ∷ source) = rw (passes-day page d item, filter-day page d source) refl

  -- Clearing the filters shows every event, whatever they were; a range from a day to the same day,
  -- picked after that, shows exactly the events of that day.
  pub rows-clear :
      (page : TracePage) (source : List TraceEvent)
      → (rows lower (clear page) source ≡ source)
        × ((d : String)
            → rows lower (record (clear page) { date_range = some (d, d) }) source
              ≡ filter (λ item. day_of item == d) source)
  unfolding rows
  rows-clear page source =
      ((unfold passes clear in filter_all source), (λ d. filter-day page d source))
