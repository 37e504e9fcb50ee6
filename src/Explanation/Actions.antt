-- ===== src/Explanation/Actions.antt =====
-- The codes of a combined action are translated one by one.
use text.Mathlib.TextLemmas.{cons-append, nil-append, append-nil, append_assoc}
use profit_decision_engine.Prelude.{
  String, Char, code, ℕ, List, [], ◌∷◌, map, Option, true, false, ◌≡◌, refl, ap, ◌∙◌, ap₂, ◌+++◌,
  eqb, trim, truthy, join, All,
}
use profit_decision_engine.Json.{Json}
use profit_decision_engine.Explanation.{split_plus, split_plus_from, part_label, format_text}

-- The text holds no `+`.
abbrev pub NoPlus : String → Type 0
NoPlus String.[] = Unit
NoPlus (String.◌∷◌ c s) = (eqb (code c) 43 ≡ false) × NoPlus s

snoc_append : (cur s : String) (c : Char) → (cur +++ String.◌∷◌ c "") +++ s ≡ cur +++ String.◌∷◌ c s
snoc_append cur s c =
    append_assoc cur (String.◌∷◌ c "") s
    ∙ ap (λ t. cur +++ t) (cons-append c "" s ∙ ap (String.◌∷◌ c) (nil-append s))

split_plus_from-last : (cur s : String) → NoPlus s → split_plus_from cur s ≡ (cur +++ s) ∷ []
unfolding split_plus_from
split_plus_from-last cur String.[] h = rw (append-nil cur) refl
split_plus_from-last cur (String.◌∷◌ c s) h =
    rw h.0 (
      split_plus_from-last (cur +++ String.◌∷◌ c "") s h.1 ∙ ap (λ t. t ∷ []) (snoc_append cur s c))

split_plus_from-part :
    (cur s t : String)
    → NoPlus s
    → split_plus_from cur (s +++ ("+" +++ t)) ≡ (cur +++ s) ∷ split_plus_from "" t
unfolding split_plus_from
split_plus_from-part cur String.[] t h =
    rw (nil-append ("+" +++ t), cons-append "+" "" t, nil-append t, append-nil cur) refl
split_plus_from-part cur (String.◌∷◌ c s) t h =
    rw (cons-append c s ("+" +++ t), h.0)
      (split_plus_from-part (cur +++ String.◌∷◌ c "") s t h.1
        ∙ ap (λ x. x ∷ split_plus_from "" t) (snoc_append cur s c))

-- Splitting undoes joining, for parts without `+`.
split_plus-join :
    (p : String) (ps : List String) → All NoPlus (p ∷ ps) → split_plus (join "+" (p ∷ ps)) ≡ p ∷ ps
unfolding split_plus
split_plus-join p [] h = split_plus_from-last "" p h.0 ∙ ap (λ x. x ∷ []) (nil-append p)
split_plus-join p (q ∷ ps) h =
    split_plus_from-part "" p (join "+" (q ∷ ps)) h.0
    ∙ ap₂ ◌∷◌ (nil-append p) (split_plus-join q ps h.1)

-- An action text that is not blank and joins parts without `+` by `+` is shown as the labels of the
-- parts joined by ` + `, in order, for every way of parsing and at every depth; white space around
-- the text is dropped.
pub format_text-action :
    (parse : String → Option Json) (inherited : String → Option String) (again : Json → ℕ → String)
    (text p : String) (ps : List String) (d : ℕ)
    → trim text ≡ join "+" (p ∷ ps)
    → truthy (trim text) ≡ true
    → All NoPlus (p ∷ ps)
    → format_text parse inherited again "action" text d
      ≡ join " + " (map (part_label inherited) (p ∷ ps))
unfolding format_text
format_text-action parse inherited again text p ps d e t h =
    rw t (
      ap (λ l. join " + " (map (part_label inherited) l))
        (ap split_plus e ∙ split_plus-join p ps h))
