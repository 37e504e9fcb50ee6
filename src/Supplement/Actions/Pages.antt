-- ===== src/Supplement/Actions/Pages.antt =====
-- The events of ActionListPage.tsx, and how far its pagination leads. A new query has no items until
-- they are loaded; the pagination offers the pages from 1 to the quotient of total and page size,
-- rounded up.
use profit_decision_engine.Prelude.{
  String, ℕ, ◌+◌, ◌*◌, ◌-◌, ◌/◌, ◌≤◌, List, [], ◌∷◌, Option, some, ◌≡◌, ◌⊎◌, refl, arith, inl, inr,
  length, leb, length-filter_le, if◌then◌else◌,
}
use profit_decision_engine.Supplement.Data.{Decision}
use profit_decision_engine.Supplement.Actions.View.{ListPage, initial, rows, row_passes}

pub data Filter : Type 0 where
  main_action replenishment review execution batch_filter store owner : Filter

pub data Event : Type 0 where
  chose : Filter → Option String → Event
  switched_batch : String → Event
  typed : String → Event
  resized turned : ℕ → Event
  loaded : List Decision → Event

-- The handlers: the batch of the banner, the operating action, the review state and the page size go
-- back to the first page, the others keep the page.
unfoldable pub step : Event → ListPage → ListPage
step (chose main_action value) page = record page { main_action = value; page = 1; source = [] }
step (chose replenishment value) page = record page { replenishment = value }
step (chose review value) page = record page { review = value; page = 1; source = [] }
step (chose execution value) page = record page { execution = value }
step (chose batch_filter value) page = record page { batch_filter = value; source = [] }
step (chose store value) page = record page { store = value }
step (chose owner value) page = record page { owner = value }
step (switched_batch value) page = record page { batch_filter = some value; page = 1; source = [] }
step (typed value) page = record page { keyword = value }
step (resized value) page = record page { page_size = value; page = 1; source = [] }
step (turned value) page = record page { page = value; source = [] }
step (loaded items) page = record page { source = items }

unfoldable pub after : List Event → ListPage → ListPage
unfolding step
after [] page = page
after (event ∷ events) page = after events (step event page)

abbrev pub max : ℕ → ℕ → ℕ
max a b = if leb a b then b else a

module _ (lower : String → String) where
  -- `total` of the pagination
  unfoldable pub total : ListPage → ℕ
  unfolding rows
  total page = max (length (rows lower page)) (page.page * page.page_size)

  abbrev pub last_page : ListPage → ℕ
  last_page page = (total page + (page.page_size - 1)) / page.page_size

  -- What can happen: the page is turned to one that the pagination offers, a page size is one of the
  -- three that the select offers, and an answer has at most as many items as were asked for.
  abbrev pub Possible : Event → ListPage → Type 0
  Possible (turned n) page = (1 ≤ n) × (n ≤ last_page page)
  Possible (resized n) page = (n ≡ 20) ⊎ ((n ≡ 50) ⊎ (n ≡ 100))
  Possible (loaded items) page = length items ≤ page.page_size
  Possible event page = Unit

  abbrev pub Run : ListPage → List Event → Type 0
  Run page [] = Unit
  Run page (event ∷ events) = Possible event page × Run (step event page) events

  -- What holds after every event.
  record OnFirst (page : ListPage) : Type 0 where
    first : page.page ≡ 1
    size : (page.page_size ≡ 20) ⊎ ((page.page_size ≡ 50) ⊎ (page.page_size ≡ 100))
    few : length page.source ≤ page.page_size

  total-OnFirst : (page : ListPage) → OnFirst page → total page ≡ page.page_size
  unfolding total
  total-OnFirst page v =
      let shown : length (rows lower page) ≤ length page.source =
        unfold rows in length-filter_le (row_passes lower page) page.source in
      let one = v.first in let few = v.few in rw one (ground arith)

  quotient_one : (n : ℕ) → (n ≡ 20) ⊎ ((n ≡ 50) ⊎ (n ≡ 100)) → (n + (n - 1)) / n ≡ 1
  quotient_one n (inl e) = rw e refl
  quotient_one n (inr (inl e)) = rw e refl
  quotient_one n (inr (inr e)) = rw e refl

  last_page-OnFirst : (page : ListPage) → OnFirst page → last_page page ≡ 1
  last_page-OnFirst page v = rw (total-OnFirst page v) (quotient_one page.page_size v.size)

  step-OnFirst :
      (event : Event) (page : ListPage)
      → Possible event page
      → OnFirst page
      → OnFirst (step event page)
  unfolding step
  step-OnFirst (chose main_action value) page p v = record {
    first = refl;
    size = v.size;
    few = omega arith;
  }
  step-OnFirst (chose replenishment value) page p v = record {
    first = v.first;
    size = v.size;
    few = v.few;
  }
  step-OnFirst (chose review value) page p v = record {
    first = refl;
    size = v.size;
    few = omega arith;
  }
  step-OnFirst (chose execution value) page p v = record {
    first = v.first;
    size = v.size;
    few = v.few;
  }
  step-OnFirst (chose batch_filter value) page p v = record {
    first = v.first;
    size = v.size;
    few = omega arith;
  }
  step-OnFirst (chose store value) page p v = record { first = v.first; size = v.size; few = v.few }
  step-OnFirst (chose owner value) page p v = record { first = v.first; size = v.size; few = v.few }
  step-OnFirst (switched_batch value) page p v = record {
    first = refl;
    size = v.size;
    few = omega arith;
  }
  step-OnFirst (typed value) page p v = record { first = v.first; size = v.size; few = v.few }
  step-OnFirst (resized value) page p v = record { first = refl; size = p; few = omega arith }
  step-OnFirst (turned value) page p v =
      let last = last_page-OnFirst page v in
      let one : value ≤ 1 = rw last at p.1 in
      record { first = omega (arith, p.0, one); size = v.size; few = omega arith }
  step-OnFirst (loaded items) page p v = record { first = v.first; size = v.size; few = p }

  after-OnFirst :
      (events : List Event) (page : ListPage)
      → Run page events
      → OnFirst page
      → OnFirst (after events page)
  unfolding after
  after-OnFirst [] page r v = v
  after-OnFirst (event ∷ events) page r v =
      after-OnFirst events (step event page) r.1 (step-OnFirst event page r.0 v)

  -- As long as the server answers with at most as many decisions as it was asked for, pages are turned
  -- only to those that the pagination offers, and sizes chosen from the select, the page stays the
  -- first one, and the pagination has no other page to turn to.
  pub after-initial :
      (events : List Event)
      → Run initial events
      → ((after events initial).page ≡ 1) × (last_page (after events initial) ≡ 1)
  after-initial events r =
      let v =
        after-OnFirst events initial r
          (record { first = refl; size = inl refl; few = omega arith }) in
      (v.first, last_page-OnFirst (after events initial) v)
