-- ===== src/Prelude/TextOrder.antt =====
-- The order of texts is a strict total order.
use text.Mathlib.TextEquality.{Char-path}
use profit_decision_engine.Prelude.{
  String, code, ◌≡◌, refl, ap₂, true, false, text_lt, arith, Bool-cases, inl, inr,
}

pub text_lt_irrefl : (s : String) → text_lt s s ≡ false
text_lt_irrefl String.[] = refl
text_lt_irrefl (String.◌∷◌ c s) = ground (arith, text_lt_irrefl s)

pub text_lt_trans : (s t u : String) → text_lt s t ≡ true → text_lt t u ≡ true → text_lt s u ≡ true
text_lt_trans String.[] String.[] u p q = cc
text_lt_trans String.[] (String.◌∷◌ d t) String.[] p q = cc
text_lt_trans String.[] (String.◌∷◌ d t) (String.◌∷◌ e u) p q = refl
text_lt_trans (String.◌∷◌ c s) String.[] u p q = cc
text_lt_trans (String.◌∷◌ c s) (String.◌∷◌ d t) String.[] p q = cc
text_lt_trans (String.◌∷◌ c s) (String.◌∷◌ d t) (String.◌∷◌ e u) p q =
    ground (arith, text_lt_trans s t u)

pub text_lt_total : (s t : String) → text_lt s t ≡ false → text_lt t s ≡ false → s ≡ t
text_lt_total String.[] String.[] p q = refl
text_lt_total String.[] (String.◌∷◌ d t) p q = cc
text_lt_total (String.◌∷◌ c s) String.[] p q = cc
text_lt_total (String.◌∷◌ c s) (String.◌∷◌ d t) p q =
    let same : code c ≡ code d = ground arith in
    ap₂ String.◌∷◌ (Char-path c d same) (text_lt_total s t (ground arith) (ground arith))

pub not-text_lt_trans :
    (s t u : String) → text_lt s t ≡ false → text_lt t u ≡ false → text_lt s u ≡ false
not-text_lt_trans s t u p q = elim (Bool-cases (text_lt s u)) [
  | inr e ↦ e
  | inl e ↦ elim (Bool-cases (text_lt t s)) [
    | inl f ↦ cc (text_lt_trans t s u f e)
    | inr f ↦ cc (text_lt_total s t p f)
  ]
]

pub text_lt_asymm : (s t : String) → text_lt s t ≡ true → text_lt t s ≡ false
text_lt_asymm s t p = elim (Bool-cases (text_lt t s)) [
  | inl e ↦ cc (text_lt_trans s t s p e, text_lt_irrefl s)
  | inr e ↦ e
]
