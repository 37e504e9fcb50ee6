-- ===== src/Explanation/Depth.antt =====
-- A text inside a parsed text is never parsed, so two rounds of formatting are enough.
use profit_decision_engine.Prelude.{
  String, ℕ, suc, ◌+◌, ◌≤◌, ◌∷◌, Option, true, ◌≡◌, refl, ap, ap₂, arith, leb, filter, truthy, join,
  ◌+++◌, inl, inr, Option-cases, trim,
}
use profit_decision_engine.Json.{
  Json, undefined, null, bool, num, str, arr, obj, Items, nil, cons, Fields, end, field,
}
use profit_decision_engine.Explanation.{
  format_text, value_with, format_structured, format_items, format_fields, structured_at, label_of,
  nested_labels,
}

module _ (parse : String → Option Json) (inherited : String → Option String) where
  -- From depth two on, a text is shown as it is, whatever formats parsed texts.
  format_text_deep :
      (g h : Json → ℕ → String) (key text : String) (d : ℕ)
      → 2 ≤ d
      → format_text parse inherited g key text d ≡ format_text parse inherited h key text d
  unfolding format_text
  format_text_deep g h key text d p = let e : leb 2 d ≡ true = ground arith in rw e refl

  -- Two ways of formatting parsed texts that agree below the top give the same text.
  format_text_agree :
      (g h : Json → ℕ → String)
      → ((v : Json) (d : ℕ) → 1 ≤ d → g v d ≡ h v d)
      → (key text : String) (d : ℕ)
      → format_text parse inherited g key text d ≡ format_text parse inherited h key text d
  unfolding format_text
  format_text_agree g h same key text d = elim (Option-cases (parse (trim text))) [
    | inl e ↦ rw e refl
    | inr (v, e) ↦ rw e (rw (same v (d + 1) (omega arith)) refl)
  ]

  -- One induction serves both: `ok d` says that texts at depth `d` and below are formatted alike.
  module _ (g h : Json → ℕ → String) (ok : ℕ → Type 0) (deeper : (d : ℕ) → ok d → ok (suc d))
      (texts : (key text : String) (d : ℕ)
        → ok d
        → format_text parse inherited g key text d ≡ format_text parse inherited h key text d) where
    value_with_alike :
        (key : String) (v : Json) (d : ℕ) (s t : String)
        → ok d
        → s ≡ t
        → value_with parse inherited g key v d s ≡ value_with parse inherited h key v d t
    value_with_alike key (str text) d s t k e = texts key text d k
    value_with_alike key undefined d s t k e = e
    value_with_alike key null d s t k e = e
    value_with_alike key (bool b) d s t k e = e
    value_with_alike key (num n) d s t k e = e
    value_with_alike key (arr x) d s t k e = e
    value_with_alike key (obj x) d s t k e = e

    mutual
      unfolding format_structured

      structured_alike :
          (v : Json) (d : ℕ)
          → ok (suc d)
          → format_structured parse inherited g v d ≡ format_structured parse inherited h v d
      structured_alike undefined d k = refl
      structured_alike null d k = refl
      structured_alike (bool b) d k = refl
      structured_alike (num n) d k = refl
      structured_alike (str s) d k = refl
      structured_alike (arr items) d k =
          ap (λ l. join "；" (filter truthy l)) (items_alike items (suc d) (deeper (suc d) k))
      structured_alike (obj fields) d k = ap (join "；") (fields_alike fields (suc d) k)

      items_alike :
          (items : Items) (d : ℕ)
          → ok (suc d)
          → format_items parse inherited g items d ≡ format_items parse inherited h items d
      items_alike nil d k = refl
      items_alike (cons v rest) d k = ap₂ ◌∷◌ (structured_alike v d k) (items_alike rest d k)

      fields_alike :
          (fields : Fields) (d : ℕ)
          → ok d
          → format_fields parse inherited g fields d ≡ format_fields parse inherited h fields d
      fields_alike end d k = refl
      fields_alike (field key v rest) d k =
          ap₂ ◌∷◌
            (ap (λ s. label_of inherited nested_labels key +++ ("：" +++ s))
              (value_with_alike key v d _ _ k (structured_alike v d (deeper d k))))
            (fields_alike rest d k)

  -- Within a parsed text no text is parsed again: the result does not depend on how parsed texts
  -- are formatted.
  pub format_structured_once :
      (g h : Json → ℕ → String) (v : Json) (d : ℕ)
      → 1 ≤ d
      → format_structured parse inherited g v d ≡ format_structured parse inherited h v d
  format_structured_once g h v d p =
      structured_alike g h (λ d. 2 ≤ d) (λ d k. omega arith) (format_text_deep g h) v d
        (omega arith)

  structured_at_enough :
      (n : ℕ) (v : Json) (d : ℕ)
      → 1 ≤ d
      → structured_at parse inherited (suc n) v d ≡ structured_at parse inherited 1 v d
  unfolding structured_at
  structured_at_enough n v d p = format_structured_once _ _ v d p

  -- Any further rounds change nothing: two are enough at every depth.
  pub structured_at_two :
      (n : ℕ) (v : Json) (d : ℕ)
      → structured_at parse inherited (suc (suc n)) v d ≡ structured_at parse inherited 2 v d
  unfolding structured_at
  structured_at_two n v d =
      structured_alike (structured_at parse inherited (suc n)) (structured_at parse inherited 1)
        (λ d. Unit {0}) (λ d k. tt)
        (λ key text d _. format_text_agree _ _ (structured_at_enough n) key text d) v d tt
