-- ===== src/BatchPages/Laws.antt =====
-- The batch pages show every batch once, ask again while one is being processed, and report steps in
-- order.
use mathlib.Core.List.{Memᴰ}
use profit_decision_engine.Prelude.{
  ℕ, List, [], ◌∷◌, none, some, true, false, ◌≡◌, ◌↔◌, refl, arith, Bool-cases, inl, inr, All, any,
  eq_iff, mem-filter_of, Memᴰ-filter, ◌≤◌,
}
use profit_decision_engine.Batches.{BatchSummary, is_ready}
use profit_decision_engine.BatchPages.{
  is_moving, list_interval, current, history_of, is_other, ProcessStep, process_steps,
  BatchListPage, list_pages, turn_back, turn_on, actions_link,
}

any-All :
    (bs : List BatchSummary)
    → (any (λ b. is_moving b.status) bs ≡ false) ↔ All (λ b. is_moving b.status ≡ false) bs
any-All [] = ((λ e. tt), (λ h. refl))
any-All (b ∷ bs) = elim (Bool-cases (is_moving b.status)) [
  | inl e ↦ rw e ((λ x. cc), (λ h. cc h.0))
  | inr e ↦ rw e ((λ x. (refl, (any-All bs).0 x)), (λ h. (any-All bs).1 h.1))
]

-- The list of batches is asked for again exactly while a listed batch is received or processing.
pub list_interval-eq-none_iff :
    (items : List BatchSummary)
    → (list_interval (some items) ≡ none) ↔ All (λ b. is_moving b.status ≡ false) items
unfolding list_interval
list_interval-eq-none_iff items = elim (Bool-cases (any (λ b. is_moving b.status) items)) [
  | inl e ↦ (
    λ x. let n : ℕ = 3000 in cc (let g : some n ≡ none = rw e at x in g),
    λ h. cc ((any-All items).1 h, e),
  )
  | inr e ↦ (λ x. (any-All items).0 e, λ h. rw e refl)
]

-- A listed batch is in the history, or it has the identifier of the current batch, and not both.
pub history_of-current :
    (items : List BatchSummary) (b : BatchSummary)
    → Memᴰ b items
    → (Memᴰ b (history_of items) → (c : BatchSummary) → current items ≡ some c → ¬ (b.id ≡ c.id))
      × ((c : BatchSummary) → current items ≡ some c → ¬ (b.id ≡ c.id) → Memᴰ b (history_of items))
      × (current items ≡ none → Memᴰ b (history_of items))
unfolding history_of
history_of-current items b m = (
  (λ n c e same.
      let (_, h) = Memᴰ-filter (is_other (current items)) b items n in
      cc (let g : is_other (some c) b ≡ true = rw e at h in g, (eq_iff b.id c.id).1 same)),
  (λ c e other.
      mem-filter_of (is_other (current items)) b items m (rw e (ground (arith, eq_iff b.id c.id)))),
  (λ e. mem-filter_of (is_other (current items)) b items m (rw e refl)),
)

-- The done flags of a list of steps never rise again after a step that is not done.
abbrev pub IsPrefix : List ProcessStep → Type 0
IsPrefix [] = Unit
IsPrefix (s ∷ rest) = (s.done ≡ false → All (λ t. t.done ≡ false) rest) × IsPrefix rest

-- The steps of a batch are done from the first on without a gap, and the last one is done exactly
-- when the batch is ready, which is when the link to its actions is shown.
pub process_steps-IsPrefix :
    (batch : BatchSummary)
    → IsPrefix (process_steps batch.status)
      × (All (λ s. s.done ≡ true) (process_steps batch.status) ↔ (is_ready batch.status ≡ true))
      × ((actions_link batch ≡ none) ↔ (is_ready batch.status ≡ false))
unfolding process_steps actions_link
process_steps-IsPrefix batch = ground arith

-- From a page within the list, turning leads to a page within the list.
pub turn_in_range :
    (total : ℕ) (page : BatchListPage)
    → 1 ≤ page.page
    → page.page ≤ list_pages total page.limit
    → (1 ≤ (turn_back page).page)
      × ((turn_back page).page ≤ list_pages total page.limit)
      × (1 ≤ (turn_on total page).page)
      × ((turn_on total page).page ≤ list_pages total page.limit)
unfolding turn_back turn_on
turn_in_range total page h k = ground arith
