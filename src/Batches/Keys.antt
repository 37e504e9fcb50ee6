-- ===== src/Batches/Keys.antt =====
-- The joined key orders batches by cutoff date, then completion time, then identifier, as long as
-- none of the three holds the separator U+0000.
use mathlib.Core.List.{Memᴰ}
use text.Mathlib.TextLemmas.{cons-append, nil-append, cons-ne-nil}
use text.Mathlib.TextEquality.{Char-path}
use profit_decision_engine.Prelude.{
  String, Char, code, List, some, true, text_lt, ◌≡◌, refl, ◌⊎◌, or_else, inl, inr, arith, ◌+++◌,
  ◌<◌, ap, ◌∙◌, ◌↔◌,
}
use profit_decision_engine.Batches.{BatchSummary, is_ready, batch_key, latest_ready_batch}
use profit_decision_engine.Batches.Latest.{latest_ready_batch-IsNewest}

-- The text does not hold U+0000.
abbrev pub NoNul : String → Type 0
NoNul String.[] = Unit
NoNul (String.◌∷◌ c s) = (0 < code c) × NoNul s

abbrev nul : Char
nul = "\0"

glue : String → String → String
glue a s = a +++ ("\0" +++ s)

glue-nil : (s : String) → glue "" s ≡ String.◌∷◌ nul s
unfolding glue
glue-nil s = nil-append ("\0" +++ s) ∙ (cons-append nul "" s ∙ ap (String.◌∷◌ nul) (nil-append s))

glue-cons : (c : Char) (a s : String) → glue (String.◌∷◌ c a) s ≡ String.◌∷◌ c (glue a s)
unfolding glue
glue-cons c a s = cons-append c a ("\0" +++ s)

-- A separated text is below another exactly when its head is, or the heads agree and the rest is.
glue_lt :
    (a b s t : String)
    → NoNul a
    → NoNul b
    → (text_lt (glue a s) (glue b t) ≡ true)
      ↔ ((text_lt a b ≡ true) ⊎ ((a ≡ b) × (text_lt s t ≡ true)))
glue_lt String.[] String.[] s t h k =
    rw (glue-nil s, glue-nil t) ((λ e. inr (refl, e)), (λ q. ground arith))
glue_lt String.[] (String.◌∷◌ d b) s t h k =
    rw (glue-nil s, glue-cons d b t) ((λ e. inl refl), (λ q. ground arith))
glue_lt (String.◌∷◌ c a) String.[] s t h k =
    rw (glue-nil t, glue-cons c a s)
      ((λ e. absurd (ground arith)), (λ q. ground (arith, cons-ne-nil c a)))
glue_lt (String.◌∷◌ c a) (String.◌∷◌ d b) s t h k =
    let ih = glue_lt a b s t h.1 k.1 in
    rw (glue-cons c a s, glue-cons d b t)
      ((λ e. ground (arith, ih, Char-path c d)), (λ q. ground (arith, ih)))

-- The order of the triples (cutoff date, completion time or empty, identifier).
pub data Earlier (a b : BatchSummary) : Type 0 where
  by_cutoff : text_lt a.business_cutoff_date b.business_cutoff_date ≡ true → Earlier a b
  by_completion :
      a.business_cutoff_date ≡ b.business_cutoff_date
      → text_lt (or_else a.completed_at "") (or_else b.completed_at "") ≡ true
      → Earlier a b
  by_id :
      a.business_cutoff_date ≡ b.business_cutoff_date
      → or_else a.completed_at "" ≡ or_else b.completed_at ""
      → text_lt a.id b.id ≡ true
      → Earlier a b

pub record HasPlainKey (b : BatchSummary) : Type 0 where
  pub cutoff : NoNul b.business_cutoff_date
  pub completion : NoNul (or_else b.completed_at "")

batch_key-glue :
    (b : BatchSummary)
    → batch_key b ≡ glue b.business_cutoff_date (glue (or_else b.completed_at "") b.id)
unfolding batch_key glue
batch_key-glue b = refl

-- The comparison of the joined keys is the order of the triples.
pub batch_key_lt :
    (a b : BatchSummary)
    → HasPlainKey a
    → HasPlainKey b
    → (text_lt (batch_key a) (batch_key b) ≡ true) ↔ Earlier a b
batch_key_lt a b h k = (to, from)
  where
    outer :
        (text_lt
            (glue a.business_cutoff_date (glue (or_else a.completed_at "") a.id))
            (glue b.business_cutoff_date (glue (or_else b.completed_at "") b.id))
          ≡ true)
        ↔ ((text_lt a.business_cutoff_date b.business_cutoff_date ≡ true)
            ⊎ ((a.business_cutoff_date ≡ b.business_cutoff_date)
                × (text_lt
                      (glue (or_else a.completed_at "") a.id)
                      (glue (or_else b.completed_at "") b.id)
                    ≡ true)))
    outer = glue_lt _ _ _ _ h.cutoff k.cutoff

    inner :
        (text_lt (glue (or_else a.completed_at "") a.id) (glue (or_else b.completed_at "") b.id)
          ≡ true)
        ↔ ((text_lt (or_else a.completed_at "") (or_else b.completed_at "") ≡ true)
            ⊎ ((or_else a.completed_at "" ≡ or_else b.completed_at "")
                × (text_lt a.id b.id ≡ true)))
    inner = glue_lt _ _ _ _ h.completion k.completion

    to : text_lt (batch_key a) (batch_key b) ≡ true → Earlier a b
    to e = elim (outer.0 (rw (batch_key-glue a, batch_key-glue b) at e)) [
      | inl p ↦ by_cutoff p
      | inr (p, q) ↦ elim (inner.0 q) [ inl r ↦ by_completion p r | inr (r, s) ↦ by_id p r s ]
    ]

    from : Earlier a b → text_lt (batch_key a) (batch_key b) ≡ true
    from (by_cutoff p) = rw (batch_key-glue a, batch_key-glue b) (outer.1 (inl p))
    from (by_completion p q) =
        rw (batch_key-glue a, batch_key-glue b) (outer.1 (inr (p, inner.1 (inl q))))
    from (by_id p q r) =
        rw (batch_key-glue a, batch_key-glue b) (outer.1 (inr (p, inner.1 (inr (q, r)))))

-- No ready batch of the list is later than the chosen one, by cutoff date, then completion time,
-- then identifier, if no compared date holds U+0000.
pub latest_ready_batch-not-Earlier :
    (batches : List BatchSummary) (b c : BatchSummary)
    → latest_ready_batch batches ≡ some b
    → Memᴰ c batches
    → is_ready c.status ≡ true
    → HasPlainKey b
    → HasPlainKey c
    → ¬ Earlier b c
latest_ready_batch-not-Earlier batches b c e m r h k x =
    cc ((batch_key_lt b c h k).1 x, (latest_ready_batch-IsNewest batches b e).newest c m r)
