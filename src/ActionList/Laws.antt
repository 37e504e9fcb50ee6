-- ===== src/ActionList/Laws.antt =====
-- Which batch the action list shows, and that its pages stay within range.
use mathlib.Core.List.{Memᴰ}
use profit_decision_engine.Prelude.{
  String, ℕ, zero, suc, ◌+◌, ◌-◌, ◌*◌, ◌/◌, ◌≤◌, ◌<◌, List, [], ◌∷◌, none, some, true, false, ◌==◌,
  ◌≡◌, refl, ap, ◌∙◌, arith, Bool-cases, inl, inr, eq_iff, truthy, leb, find, Memᴰ-filter, ◌⊎◌, sym,
}
use profit_decision_engine.Prelude.Decimal.{Number, pos}
use profit_decision_engine.Batches.{BatchSummary, is_ready, latest_ready_batch, latest_from}
use profit_decision_engine.Batches.Latest.{latest_ready_batch-IsNewest, IsNewest}
use profit_decision_engine.Api.Filters.{ActionFilters}
use profit_decision_engine.ActionList.{
  pages, update, clear, has_narrowing, ready_batches, active_batch, previous_disabled,
  next_disabled, previous_page, next_page,
}

filter-filter : (bs : List BatchSummary) → ready_batches (ready_batches bs) ≡ ready_batches bs
filter-filter [] = refl
filter-filter (b ∷ bs) = elim (Bool-cases (is_ready b.status)) [
  | inl e ↦ rw e (rw e (ap (λ l. b ∷ l) (filter-filter bs)))
  | inr e ↦ rw e (filter-filter bs)
]

-- Dropping the batches that are not ready before asking for the latest ready one changes nothing.
pub latest_ready_batch-ready_batches :
    (bs : List BatchSummary) → latest_ready_batch (ready_batches bs) ≡ latest_ready_batch bs
unfolding latest_ready_batch
latest_ready_batch-ready_batches bs = ap (latest_from none) (filter-filter bs)

find-Mem :
    (id : String) (bs : List BatchSummary) (b : BatchSummary)
    → find (λ c. c.id == id) bs ≡ some b
    → Memᴰ b bs × (b.id == id ≡ true)
find-Mem id [] b e = cc
find-Mem id (c ∷ bs) b e = elim (Bool-cases (c.id == id)) [
  | inl h ↦
      let same : c ≡ b = cc (let g : some c ≡ some b = rw h at e in g) in
      (Memᴰ.head (sym same), rw (sym same) h)
  | inr h ↦ let (m, k) = find-Mem id bs b (rw h at e) in (Memᴰ.tail m, k)
]

-- The batch whose list is shown is ready and among the batches that were answered; it has the
-- chosen identifier if one is chosen, and otherwise no ready batch has a greater key.
pub active_batch-ready :
    (f : ActionFilters) (items : List BatchSummary) (b : BatchSummary)
    → active_batch f items ≡ some b
    → Memᴰ b items
      × (is_ready b.status ≡ true)
      × ((truthy f.batch_id ≡ true) × (b.id ≡ f.batch_id)
          ⊎ (truthy f.batch_id ≡ false) × IsNewest items b)
unfolding active_batch
active_batch-ready f items b e = elim (Bool-cases (truthy f.batch_id)) [
  | inl h ↦
      let (m, k) = find-Mem f.batch_id (ready_batches items) b (rw h at e) in
      let (listed, r) = Memᴰ-filter (λ c. is_ready c.status) b items m in
      (listed, r, inl (h, (eq_iff b.id f.batch_id).0 k))
  | inr h ↦
      let g : latest_ready_batch (ready_batches items) ≡ some b = rw h at e in
      let newest =
        latest_ready_batch-IsNewest items b (sym (latest_ready_batch-ready_batches items) ∙ g) in
      (newest.listed, newest.ready, inr (h, newest))
]

-- Clearing the conditions leaves none and goes to the first page; batch, tab and limit stay.
pub update-clear :
    (f : ActionFilters)
    → (has_narrowing (update f clear) ≡ false)
      × ((update f clear).page ≡ pos 1)
      × ((update f clear).batch_id ≡ f.batch_id)
      × ((update f clear).tab ≡ f.tab)
      × ((update f clear).limit ≡ f.limit)
unfolding update has_narrowing
update-clear f = (refl, refl, refl, refl, refl)

-- The limits that the page offers.
pub data IsOffered : Number → Type 0 where
  twenty : IsOffered (pos 20)
  fifty : IsOffered (pos 50)
  hundred : IsOffered (pos 100)

-- `p` pages of `n` items hold `total` items, one page less does not, and there is at least one.
abbrev pub Holds : ℕ → Number → Number → Type 0
Holds total (pos n) (pos p) = (1 ≤ p) × (total ≤ p * n) × ((p ≡ 1) ⊎ ((p - 1) * n < total))
Holds total _ _ = ⊥

-- For a limit that the page offers, 20, 50 or 100, the number of pages is the least that holds all
-- items, and at least one.
pub pages-least :
    (total : ℕ) (limit : Number) → IsOffered limit → Holds total limit (pages total limit)
unfolding pages
pages-least total limit twenty = elim (Bool-cases (leb 1 ((total + 19) / 20))) [
  | inl e ↦ rw e (ground arith, ground arith, ground arith)
  | inr e ↦ rw e (ground arith, ground arith, inl refl)
]
pages-least total limit fifty = elim (Bool-cases (leb 1 ((total + 49) / 50))) [
  | inl e ↦ rw e (ground arith, ground arith, ground arith)
  | inr e ↦ rw e (ground arith, ground arith, inl refl)
]
pages-least total limit hundred = elim (Bool-cases (leb 1 ((total + 99) / 100))) [
  | inl e ↦ rw e (ground arith, ground arith, ground arith)
  | inr e ↦ rw e (ground arith, ground arith, inl refl)
]

-- Within the pages, a button that is not disabled leads to a page that exists.
pub pages_in_range :
    (f : ActionFilters) (total n p : ℕ)
    → f.page ≡ pos n
    → pages total f.limit ≡ pos p
    → 1 ≤ n
    → n ≤ p
    → (next_disabled f total ≡ false → ((next_page f).page ≡ pos (n + 1)) × (n + 1 ≤ p))
      × (previous_disabled f ≡ false → ((previous_page f).page ≡ pos (n - 1)) × (1 ≤ n - 1))
unfolding next_disabled update
pages_in_range f total zero p e g h k = absurd (omega arith)
pages_in_range f total (suc n) p e g h k = rw g (
    rw e ((λ d. (ap pos (omega arith), ground arith)), (λ d. (ap pos (omega arith), ground arith))))
