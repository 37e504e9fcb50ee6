-- ===== src/Supplement/Batches/Listing.antt =====
-- pages/BatchListPage.tsx of the supplementary frontend. `lower` is `toLowerCase`, `local_time` is
-- `toLocaleString`.
use profit_decision_engine.Prelude.{
  String, ℕ, List, [], ◌∷◌, Option, none, some, Bool, true, ◌&&◌, ◌==◌, ◌+++◌, ◌≡◌, refl, filter,
  length, truthy, trim, includes, or_else, slice_to, if◌then◌else◌, ap,
}
use profit_decision_engine.Prelude.Decimal.{to_decimal}
use profit_decision_engine.Supplement.Data.{Batch}
use profit_decision_engine.Supplement.StatusTag.{status_tag}
use profit_decision_engine.Supplement.Texts.{in_range}

pub record ListPage : Type 0 where
  pub status : Option String
  pub keyword : String
  pub created_range : Option (String × String)
  pub page : ℕ

abbrev pub initial : ListPage
initial = record { status = none; keyword = ""; created_range = none; page = 1 }

-- A search is run, or the text of its field changes; a range is picked or emptied.
pub data Event : Type 0 where
  searched changed : String → Event
  chose_status : Option String → Event
  picked : Option (String × String) → Event
  reset : Event
  turned : ℕ → Event

unfoldable pub step : Event → ListPage → ListPage
step (searched text) page = record page { keyword = text }
step (changed text) page = record page { keyword = if truthy text then page.keyword else "" }
step (chose_status value) page = record page { status = value; page = 1 }
step (picked range) page = record page { created_range = range }
step reset page = record { status = none; keyword = ""; created_range = none; page = 1 }
step (turned n) page = record page { page = n }

abbrev status_part : Option String → String
status_part none = ""
status_part (some status) = if truthy status then "&status=" +++ status else ""

unfoldable pub request_path : ListPage → String
unfolding to_decimal
request_path page =
    "/batches?page=" +++ (to_decimal page.page +++ ("&page_size=20" +++ status_part page.status))

abbrev searched_text : Batch → String
searched_text item =
    item.batch_id +++ (item.business_unit +++ (item.source_name +++ item.created_by))

unfoldable pub shows : (String → String) → ListPage → Batch → Bool
unfolding trim
shows lower page item =
    includes (lower (searched_text item)) (lower (trim page.keyword))
    && in_range page.created_range (slice_to 10 item.created_at)

unfoldable pub rows : (String → String) → ListPage → List Batch → List Batch
unfolding shows
rows lower page items = filter (shows lower page) items

-- `total` of the pagination, for the total of the answer
abbrev pub total : Option ℕ → List Batch → ℕ
total answered rows = or_else answered (length rows)

abbrev pub status_options : List (String × String)
status_options =
    ("received", "已接收")
    ∷ ("validating", "校验中")
    ∷ ("rules_processing", "规则处理中")
    ∷ ("ready", "已完成")
    ∷ ("failed", "处理失败")
    ∷ []

-- The columns of the table, with the text of a batch.
unfoldable pub columns : (String → String) → List (String × (Batch → String))
unfolding status_tag to_decimal
columns local_time =
    ("批次编号", λ item. item.batch_id)
    ∷ ("事业部", λ item. item.business_unit)
    ∷ ("数据期间", λ item. item.period_start +++ ("至 " +++ item.period_end))
    ∷ ("业务截止日", λ item. item.business_date)
    ∷ ("源文件", λ item. item.source_name)
    ∷ ("状态", λ item. (status_tag item.status).1)
    ∷ ("清单状态", λ item. if item.status == "ready" then "已发布" else "未发布")
    ∷ ("有效 SPU", λ item. to_decimal item.valid_row_count)
    ∷ ("拒绝行", λ item. to_decimal item.rejected_row_count)
    ∷ ("降级字段", λ item. to_decimal item.degraded_field_count)
    ∷ ("提交人", λ item. item.created_by)
    ∷ ("创建时间", λ item. local_time item.created_at)
    ∷ []

includes-empty : (s : String) → includes s "" ≡ true
includes-empty String.[] = refl
includes-empty (String.◌∷◌ c s) = refl

-- After a reset, whatever was set before, the first page of all batches is asked for, and every
-- batch of the answer is shown, provided that the lower case of the empty text is empty.
pub rows-reset :
    (lower : String → String) (page : ListPage) (items : List Batch)
    → lower "" ≡ ""
    → (rows lower (step reset page) items ≡ items)
      × (request_path (step reset page) ≡ "/batches?page=1&page_size=20")
unfolding rows step request_path
rows-reset lower page items h = (every items, refl)
  where
    every : (items : List Batch) → filter (shows lower (step reset page)) items ≡ items
    every [] = refl
    every (item ∷ rest) =
        rw h (rw (includes-empty (lower (searched_text item))) (ap (λ l. item ∷ l) (every rest)))
