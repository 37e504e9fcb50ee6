-- ===== src/BatchPages/Examples.antt =====
-- Tests of the batch pages, and their theorems on concrete lists.
use mathlib.Core.List.{Memᴰ}
use profit_decision_engine.Prelude.{
  [], ◌∷◌, none, some, true, false, All, ◌≡◌, ◌≤◌, ◌↔◌, ◌⊎◌, refl, arith,
}
use profit_decision_engine.Batches.{BatchSummary, is_ready, ready, failed}
use profit_decision_engine.BatchPages.View.{next_step}
use profit_decision_engine.BatchPages.Promises.{batch_interval-next_step}
use profit_decision_engine.Batches.Samples.{may, june, july, listed}
use profit_decision_engine.BatchPages.{
  BatchListPage, is_moving, list_interval, batch_interval, current, history_of, process_steps,
  actions_link, turn_back, turn_on, list_pages,
}
use profit_decision_engine.BatchPages.Laws.{
  IsPrefix, list_interval-eq-none_iff, history_of-current, process_steps-IsPrefix, turn_in_range,
}

batch_interval-next_step_example :
    ((batch_interval (some failed) ≡ none) ↔ ((failed ≡ ready) ⊎ (failed ≡ failed)))
    × (((batch_interval (some failed) ≡ none) × ((next_step failed).1 ≡ "页面会自动刷新当前处理阶段。"))
        ↔ (failed ≡ failed))
batch_interval-next_step_example = batch_interval-next_step failed

list_interval-eq-none_iff_case :
    (list_interval (some listed) ≡ none) ↔ All (λ b. is_moving b.status ≡ false) listed
list_interval-eq-none_iff_case = list_interval-eq-none_iff listed

current_test : (current listed ≡ some may) × (history_of listed ≡ july ∷ june ∷ [])
unfolding current history_of
current_test = (refl, refl)

history_of-current_case :
    (Memᴰ june (history_of listed)
      → (c : BatchSummary) → current listed ≡ some c
      → ¬ (june.id ≡ c.id))
    × ((c : BatchSummary)
        → current listed ≡ some c
        → ¬ (june.id ≡ c.id)
        → Memᴰ june (history_of listed))
    × (current listed ≡ none → Memᴰ june (history_of listed))
history_of-current_case = history_of-current listed june (Memᴰ.tail (Memᴰ.tail (Memᴰ.head refl)))

process_steps-IsPrefix_case :
    IsPrefix (process_steps july.status)
    × (All (λ s. s.done ≡ true) (process_steps july.status) ↔ (is_ready july.status ≡ true))
    × ((actions_link july ≡ none) ↔ (is_ready july.status ≡ false))
process_steps-IsPrefix_case = process_steps-IsPrefix july

abbrev second : BatchListPage
second = record { page = 2; limit = 20; draft_search = ""; search = "" }

two_within : 2 ≤ list_pages 41 second.limit
unfolding list_pages
two_within = omega arith

turn_in_range_case :
    (1 ≤ (turn_back second).page)
    × ((turn_back second).page ≤ list_pages 41 second.limit)
    × (1 ≤ (turn_on 41 second).page)
    × ((turn_on 41 second).page ≤ list_pages 41 second.limit)
turn_in_range_case = turn_in_range 41 second (omega arith) two_within
