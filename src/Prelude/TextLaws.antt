-- ===== src/Prelude/TextLaws.antt =====
-- Laws of prefixes, membership and tables of texts.
use text.Mathlib.TextLemmas.{cons-append, nil-append}
use profit_decision_engine.Prelude.{
  String, List, [], ◌∷◌, true, false, elem, ◌==◌, ◌+++◌, ◌≡◌, refl, eq_iff, starts_with, arith,
  Bool-cases, inl, inr, All, subst, eqb_refl, code, ℕ, suc, slice_from,
}

-- What holds of every text of a list holds of a text that the list includes.
pub All-elem {ℓ} :
    (P : String → Type ℓ) (x : String) (xs : List String) → All P xs → elem x xs ≡ true → P x
All-elem P x [] h e = cc
All-elem P x (y ∷ ys) h e = elim (Bool-cases (y == x)) [
  | inl s ↦ subst P ((eq_iff y x).0 s) h.0
  | inr n ↦ All-elem P x ys h.1 (rw n at e)
]

pub starts_with_trans :
    (s t u : String) → starts_with s t ≡ true → starts_with t u ≡ true → starts_with s u ≡ true
starts_with_trans s t String.[] p q = refl
starts_with_trans s String.[] (String.◌∷◌ e u) p q = cc
starts_with_trans String.[] (String.◌∷◌ d t) (String.◌∷◌ e u) p q = cc
starts_with_trans (String.◌∷◌ c s) (String.◌∷◌ d t) (String.◌∷◌ e u) p q =
    ground (arith, starts_with_trans s t u)

pub starts_with-append : (s t : String) → starts_with (s +++ t) s ≡ true
starts_with-append String.[] t = refl
starts_with-append (String.◌∷◌ c s) t =
    rw (cons-append c s t, eqb_refl (code c)) (starts_with-append s t)

abbrev pub size : String → ℕ
size String.[] = 0
size (String.◌∷◌ c s) = suc (size s)

pub slice_from-append : (p s : String) → slice_from (size p) (p +++ s) ≡ s
slice_from-append String.[] s = nil-append s
slice_from-append (String.◌∷◌ c p) s = rw (cons-append c p s) (slice_from-append p s)

-- A text with a prefix is no text without it.
pub append-ne_of_prefix : (p s t : String) → starts_with t p ≡ false → (p +++ s == t) ≡ false
append-ne_of_prefix p s t h = elim (Bool-cases (p +++ s == t)) [
  | inr e ↦ e
  | inl e ↦
      let q : p +++ s ≡ t = (eq_iff (p +++ s) t).0 e in
      cc (subst (λ x. starts_with x p ≡ true) q (starts_with-append p s))
]
