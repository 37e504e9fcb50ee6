-- ===== src/History/Address.antt =====
-- The address of the history keeps its filters, and they are the ones of the request.
use profit_decision_engine.Prelude.{
  leb, String, ℕ, zero, suc, eqb→eq, List, [], ◌∷◌, none, true, false, ◌≡◌, refl, ap, ◌∙◌, ◌==◌,
  ◌||◌, sym, or_else, lookup, eqb, Bool-cases, inl, inr, arith, if◌then◌else◌,
}
use profit_decision_engine.Prelude.NumberOrder.{at_most}
use profit_decision_engine.Prelude.Decimal.{
  Number, nan, pos, neg, fraction, infinite, power, number, number_text, to_decimal,
}
use profit_decision_engine.Prelude.DecimalLaws.{
  number-to_decimal, to_decimal-truthy, number_text-truthy,
}
use profit_decision_engine.Prelude.Query.{Params, set, set_if, get_or_empty, lookup-set_if_other}
use profit_decision_engine.Prelude.QueryWrites.{
  write_all, Distinct, get_or_empty-write_all, set-set_if, append_if-set_if,
}
use profit_decision_engine.Api.Filters.{HistoryFilters, list_history_query}
use profit_decision_engine.History.{initial_filters, to_query, page_of, limit_of, is_number}

-- The text under a name that is left out for the usual value.
abbrev unless : ℕ → ℕ → String
unless usual n = if eqb n usual then "" else to_decimal n

abbrev unless_number : ℕ → Number → String
unless_number usual n = if is_number usual n then "" else number_text n

abbrev texts : HistoryFilters → List (String × String) → List (String × String)
texts f rest =
    ("batch_id", f.batch_id)
    ∷ ("search", f.search)
    ∷ ("action", f.action)
    ∷ ("review_status", f.review_status)
    ∷ ("execution_state", f.execution_state)
    ∷ ("period_start", f.period_start)
    ∷ ("period_end", f.period_end)
    ∷ rest

abbrev pairs : HistoryFilters → List (String × String)
pairs f = texts f (("page", unless_number 1 f.page) ∷ ("limit", unless 50 f.limit) ∷ [])

unless-set_if :
    (k : String) (usual n : ℕ) (ps : Params)
    → (if eqb n usual then ps else set k (to_decimal n) ps) ≡ set_if k (unless usual n) ps
unfolding set_if
unless-set_if k usual n ps = elim (Bool-cases (eqb n usual)) [
  | inl e ↦ rw e refl
  | inr e ↦ rw e (rw (to_decimal-truthy n) refl)
]

unless_number-set_if :
    (k : String) (usual : ℕ) (n : Number) (ps : Params)
    → (if is_number usual n then ps else set k (number_text n) ps)
      ≡ set_if k (unless_number usual n) ps
unfolding set_if
unless_number-set_if k usual n ps = elim (Bool-cases (is_number usual n)) [
  | inl e ↦ rw e refl
  | inr e ↦ rw e (rw (number_text-truthy n) refl)
]

to_query-write_all : (f : HistoryFilters) → to_query f ≡ write_all (pairs f) []
unfolding to_query
to_query-write_all f =
    unless-set_if "limit" 50 f.limit _
    ∙ ap (set_if "limit" (unless 50 f.limit)) (unless_number-set_if "page" 1 f.page _)

pairs-Distinct : (f : HistoryFilters) → Distinct (pairs f)
pairs-Distinct f = (refl, (refl, (refl, (refl, (refl, (refl, (refl, (refl, (refl, tt)))))))))

read :
    (j : String) (f : HistoryFilters)
    → get_or_empty j (to_query f) ≡ or_else (lookup j (pairs f)) ""
read j f = rw (to_query-write_all f) (get_or_empty-write_all j (pairs f) [] (pairs-Distinct f) refl)

-- A page from one on.
pub data IsPage : Number → Type 0 where
  from_one : (n : ℕ) → IsPage (pos (suc n))

page_of-unless_number : (p : Number) → IsPage p → page_of (number (unless_number 1 p)) ≡ p
page_of-unless_number p (from_one n) = elim (Bool-cases (eqb (suc n) 1)) [
  | inl e ↦ rw e (unfold number in ap pos (sym (eqb→eq (suc n) 1 e)))
  | inr e ↦ rw e (ap page_of (number-to_decimal (suc n)))
]

limit_of-unless :
    (n : ℕ) → (eqb n 20 || eqb n 50 || eqb n 100) ≡ true → limit_of (number (unless 50 n)) ≡ n
limit_of-unless n h = elim (Bool-cases (eqb n 50)) [
  | inl e ↦ rw e (unfold number in sym (eqb→eq n 50 e))
  | inr e ↦ rw e (ap limit_of (number-to_decimal n) ∙ rw h refl)
]

-- Reading the address that the page wrote gives the same filters back, for a whole page from one on
-- and an offered limit.
pub history_filters-to_query :
    (f : HistoryFilters)
    → IsPage f.page
    → (eqb f.limit 20 || eqb f.limit 50 || eqb f.limit 100) ≡ true
    → initial_filters (to_query f) ≡ f
unfolding initial_filters
history_filters-to_query f p l =
    rw
      (
        read "batch_id" f,
        read "search" f,
        read "action" f,
        read "review_status" f,
        read "execution_state" f,
        read "period_start" f,
        read "period_end" f,
        read "page" f,
        read "limit" f,
      )
      (rw (page_of-unless_number f.page p, limit_of-unless f.limit l) refl)

page_of-at_most : (n : Number) → at_most (pos 1) (page_of n) ≡ true
page_of-at_most nan = refl
page_of-at_most (pos zero) = refl
page_of-at_most (pos (suc n)) = ground arith
page_of-at_most (neg n) = refl
page_of-at_most (fraction true m k) = refl
page_of-at_most (fraction false m k) = elim (Bool-cases (leb (power (suc k)) m)) [
  | inl e ↦ rw e (ground (arith, e))
  | inr e ↦ rw e refl
]
page_of-at_most (infinite true) = refl
page_of-at_most (infinite false) = refl

limit_of-offered :
    (n : Number) → (eqb (limit_of n) 20 || eqb (limit_of n) 50 || eqb (limit_of n) 100) ≡ true
limit_of-offered (pos n) = elim (Bool-cases (eqb n 20 || eqb n 50 || eqb n 100)) [
  | inl e ↦ rw e e
  | inr e ↦ rw e refl
]
limit_of-offered nan = refl
limit_of-offered (neg n) = refl
limit_of-offered (fraction minus m k) = refl
limit_of-offered (infinite minus) = refl

-- Whatever the address holds, the filters have a page that is at least one, if perhaps no whole
-- number, and the limit is 20, 50 or 100.
pub history_filters_valid :
    (query : Params)
    → (at_most (pos 1) (initial_filters query).page ≡ true)
      × ((eqb (initial_filters query).limit 20
            || eqb (initial_filters query).limit 50
            || eqb (initial_filters query).limit 100)
          ≡ true)
unfolding initial_filters
history_filters_valid query = (
  page_of-at_most (number (get_or_empty "page" query)),
  limit_of-offered (number (get_or_empty "limit" query)),
)

set_if_fresh :
    (j k v : String) (ps : Params)
    → (k == j) ≡ false
    → lookup j ps ≡ none
    → lookup j (set_if k v ps) ≡ none
set_if_fresh j k v ps h e = lookup-set_if_other j k v ps h ∙ e

abbrev request_pairs : HistoryFilters → List (String × String)
request_pairs f = texts f (("page", number_text f.page) ∷ ("limit", to_decimal f.limit) ∷ [])

request-write_all : (f : HistoryFilters) → list_history_query f ≡ write_all (request_pairs f) []
unfolding list_history_query
request-write_all f =
    let q = set_if "search" f.search (set_if "batch_id" f.batch_id []) in
    let none_of = λ (j : String). λ (h : ("search" == j) ≡ false).
      λ (k : ("batch_id" == j) ≡ false).
        set_if_fresh j "search" f.search (set_if "batch_id" f.batch_id []) h
          (set_if_fresh j "batch_id" f.batch_id [] k refl) in
    let q2 = set_if "action" f.action q in
    let q3 = set_if "review_status" f.review_status q2 in
    rw (append_if-set_if "action" f.action q (none_of "action" refl refl)) (
      rw
        (append_if-set_if "review_status" f.review_status q2 (
          set_if_fresh "review_status" "action" f.action q refl
            (none_of "review_status" refl refl)))
        (rw
          (append_if-set_if "execution_state" f.execution_state q3 (
            set_if_fresh "execution_state" "review_status" f.review_status q2 refl (
              set_if_fresh "execution_state" "action" f.action q refl
                (none_of "execution_state" refl refl))))
          (rw (set-set_if "limit" (to_decimal f.limit) _ (to_decimal-truthy f.limit))
            (rw (set-set_if "page" (number_text f.page) _ (number_text-truthy f.page)) refl))))

-- Apart from page and limit, each parameter has the same text in the address of the page and in
-- the request for the same filters, an absent one counting as the empty text.
pub to_query-list_history_query :
    (f : HistoryFilters) (name : String)
    → ("page" == name) ≡ false
    → ("limit" == name) ≡ false
    → get_or_empty name (to_query f) ≡ get_or_empty name (list_history_query f)
to_query-list_history_query f name h k =
    let requested : get_or_empty name (list_history_query f)
        ≡ or_else (lookup name (request_pairs f)) "" =
      rw (request-write_all f) (
        get_or_empty-write_all name (request_pairs f) []
          (refl, (refl, (refl, (refl, (refl, (refl, (refl, (refl, (refl, tt))))))))) refl) in
    let same : or_else (lookup name (pairs f)) "" ≡ or_else (lookup name (request_pairs f)) "" =
      rw (h, k) refl in
    read name f ∙ (same ∙ sym requested)
