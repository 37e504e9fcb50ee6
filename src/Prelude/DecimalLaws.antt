-- ===== src/Prelude/DecimalLaws.antt =====
-- Reading a printed whole number gives it back.

use profit_decision_engine.Prelude.{
  ℕ, zero, suc, ◌+◌, ◌*◌, ◌/◌, ◌%◌, ◌<◌, ◌≤◌, String, code, some, true, false, eqb, trim, trim_end,
  Bool, ◌+++◌, is_space, truthy, ◌≡◌, refl, arith, Bool-cases, inl, inr, ◌∙◌, ap,
}
use profit_decision_engine.Prelude.Decimal.{
  Number, nan, pos, neg, digit, print_onto, to_decimal, is_digit, read_digits, positive, negative,
  signed, unsigned, number, number_text, fraction, infinite, power, with_sign, or_number, literal,
}
use text.Mathlib.TextLemmas.{cons-append}

abbrev AllDigits : String → Type 0
AllDigits String.[] = Unit
AllDigits (String.◌∷◌ c s) = (48 ≤ code c) × (code c ≤ 57) × AllDigits s

code-digit : (n : ℕ) → n < 10 → code (digit n) ≡ n + 48
code-digit zero h = refl
code-digit (suc zero) h = refl
code-digit (suc (suc zero)) h = refl
code-digit (suc (suc (suc zero))) h = refl
code-digit (suc (suc (suc (suc zero)))) h = refl
code-digit (suc (suc (suc (suc (suc zero))))) h = refl
code-digit (suc (suc (suc (suc (suc (suc zero)))))) h = refl
code-digit (suc (suc (suc (suc (suc (suc (suc zero))))))) h = refl
code-digit (suc (suc (suc (suc (suc (suc (suc (suc zero)))))))) h = refl
code-digit (suc (suc (suc (suc (suc (suc (suc (suc (suc n))))))))) h = omega arith

read_digits-digit :
    (acc n : ℕ) (out : String)
    → n < 10
    → read_digits acc (String.◌∷◌ (digit n) out) ≡ read_digits (acc * 10 + n) out
unfolding read_digits
read_digits-digit acc n out h =
    let e = code-digit n h in
    rw e (
      let t : is_digit (n + 48) ≡ true = ground arith in
      rw t (ap (λ k. read_digits (acc * 10 + k) out) (omega arith)))

-- The two ways in which a round of printing ends.
print_onto_last :
    (f n : ℕ) (out : String)
    → eqb (n / 10) 0 ≡ true
    → print_onto (suc f) n out ≡ String.◌∷◌ (digit (n % 10)) out
unfolding print_onto
print_onto_last f n out e = rw (e, print_onto) refl

print_onto_more :
    (f n : ℕ) (out : String)
    → eqb (n / 10) 0 ≡ false
    → print_onto (suc f) n out ≡ print_onto f (n / 10) (String.◌∷◌ (digit (n % 10)) out)
unfolding print_onto
print_onto_more f n out e = rw (e, print_onto) refl

read-print :
    (f n : ℕ) (out : String) → n < f → read_digits 0 (print_onto f n out) ≡ read_digits n out
read-print zero n out h = elim h [ ]
read-print (suc f) n out h = elim (Bool-cases (eqb (n / 10) 0)) [
  | inl e ↦
      rw (print_onto_last f n out e) (
        read_digits-digit 0 (n % 10) out (omega arith) ∙ ap (λ k. read_digits k out) (ground arith))
  | inr e ↦ rw (print_onto_more f n out e) (
      read-print f (n / 10) (String.◌∷◌ (digit (n % 10)) out) (ground arith)
      ∙ (read_digits-digit (n / 10) (n % 10) out (omega arith)
          ∙ ap (λ k. read_digits k out) (omega arith)))
]

AllDigits-digit :
    (n : ℕ) (out : String) → n < 10 → AllDigits out → AllDigits (String.◌∷◌ (digit n) out)
AllDigits-digit n out h k = let e = code-digit n h in (omega (arith, e), omega (arith, e), k)

print_onto-AllDigits : (f n : ℕ) (out : String) → AllDigits out → AllDigits (print_onto f n out)
print_onto-AllDigits zero n out h = unfold print_onto in h
print_onto-AllDigits (suc f) n out h = elim (Bool-cases (eqb (n / 10) 0)) [
  | inl e ↦ rw (print_onto_last f n out e) (AllDigits-digit (n % 10) out (omega arith) h)
  | inr e ↦
      rw (print_onto_more f n out e)
        (print_onto-AllDigits f (n / 10) _ (AllDigits-digit (n % 10) out (omega arith) h))
]

print_onto-truthy :
    (f n : ℕ) (out : String) → truthy out ≡ true → truthy (print_onto f n out) ≡ true
print_onto-truthy zero n out h = unfold print_onto in h
print_onto-truthy (suc f) n out h = elim (Bool-cases (eqb (n / 10) 0)) [
  | inl e ↦ rw (print_onto_last f n out e) refl
  | inr e ↦ rw (print_onto_more f n out e) (print_onto-truthy f (n / 10) _ refl)
]

pub to_decimal-truthy : (n : ℕ) → truthy (to_decimal n) ≡ true
unfolding to_decimal
to_decimal-truthy n = elim (Bool-cases (eqb (n / 10) 0)) [
  | inl e ↦ rw (print_onto_last n n "" e) refl
  | inr e ↦ rw (print_onto_more n n "" e) (print_onto-truthy n (n / 10) _ refl)
]

digit-not-is_space : (c : ℕ) → 48 ≤ c → c ≤ 57 → is_space c ≡ false
unfolding is_space
digit-not-is_space c h k = ground arith

trim_end_of_AllDigits : (s : String) → AllDigits s → trim_end s ≡ s
unfolding trim_end
trim_end_of_AllDigits String.[] h = refl
trim_end_of_AllDigits (String.◌∷◌ c s) h =
    rw (digit-not-is_space (code c) h.0 h.1, trim_end_of_AllDigits s h.2)

trim_of_AllDigits : (s : String) → AllDigits s → trim s ≡ s
unfolding trim
trim_of_AllDigits String.[] h = refl
trim_of_AllDigits (String.◌∷◌ c s) h =
    rw (digit-not-is_space (code c) h.0 h.1) (trim_end_of_AllDigits (String.◌∷◌ c s) h)

signed_of_AllDigits :
    (s : String) → AllDigits s → truthy s ≡ true → signed s ≡ positive (read_digits 0 s)
unfolding signed
signed_of_AllDigits String.[] h k = cc
signed_of_AllDigits (String.◌∷◌ c s) h k = ground arith

to_decimal-AllDigits : (n : ℕ) → AllDigits (to_decimal n)
unfolding to_decimal
to_decimal-AllDigits n = print_onto-AllDigits (suc n) n "" tt

read-to_decimal : (n : ℕ) → read_digits 0 (to_decimal n) ≡ some n
unfolding to_decimal
read-to_decimal n = read-print (suc n) n "" (omega arith) ∙ (unfold read_digits in refl)

trim_minus : (s : String) → AllDigits s → trim (String.◌∷◌ "-" s) ≡ String.◌∷◌ "-" s
unfolding trim
trim_minus s h = ap (String.◌∷◌ "-") (trim_end_of_AllDigits s h)

signed-minus :
    (s : String) → truthy s ≡ true → signed (String.◌∷◌ "-" s) ≡ negative (read_digits 0 s)
unfolding signed unsigned
signed-minus String.[] k = cc
signed-minus (String.◌∷◌ c s) k = refl

-- The whole numbers.
pub data IsWhole : Number → Type 0 where
  natural : (n : ℕ) → IsWhole (pos n)
  negated : (n : ℕ) → IsWhole (neg n)

or_number_of_IsWhole : (n m : Number) → IsWhole n → or_number n m ≡ n
or_number_of_IsWhole n m (natural k) = refl
or_number_of_IsWhole n m (negated k) = refl

number_of-signed : (s : String) (n : Number) → trim s ≡ s → signed s ≡ n → IsWhole n → number s ≡ n
unfolding number
number_of-signed s n t e w =
    ap (λ x. or_number (signed x) (literal x)) t
    ∙ (ap (λ m. or_number m (literal s)) e ∙ or_number_of_IsWhole n (literal s) w)

number-number_text_neg : (n : ℕ) → number (number_text (neg n)) ≡ neg n
number-number_text_neg n =
    number_of-signed (String.◌∷◌ "-" (to_decimal (suc n))) (neg n)
      (trim_minus (to_decimal (suc n)) (to_decimal-AllDigits (suc n)))
      (signed-minus (to_decimal (suc n)) (to_decimal-truthy (suc n))
        ∙ ap negative (read-to_decimal (suc n)))
      (negated n)

-- `Number(String(n))` is `n`.
pub number-to_decimal : (n : ℕ) → number (to_decimal n) ≡ pos n
number-to_decimal n =
    let a = to_decimal-AllDigits n in
    number_of-signed (to_decimal n) (pos n) (trim_of_AllDigits (to_decimal n) a)
      (signed_of_AllDigits (to_decimal n) a (to_decimal-truthy n) ∙ ap positive (read-to_decimal n))
      (natural n)

-- `Number(String(n))` is `n` for every whole number.
pub number-number_text : (n : Number) → IsWhole n → number (number_text n) ≡ n
number-number_text n (natural m) = number-to_decimal m
number-number_text n (negated m) = number-number_text_neg m

truthy-append : (s t : String) → truthy s ≡ true → truthy (s +++ t) ≡ true
truthy-append String.[] t h = cc
truthy-append (String.◌∷◌ c s) t h = rw (cons-append c s t) refl

with_sign-truthy : (minus : Bool) (s : String) → truthy s ≡ true → truthy (with_sign minus s) ≡ true
with_sign-truthy true s h = refl
with_sign-truthy false s h = h

-- The text of a number is not empty.
pub number_text-truthy : (n : Number) → truthy (number_text n) ≡ true
number_text-truthy nan = refl
number_text-truthy (pos n) = to_decimal-truthy n
number_text-truthy (neg n) = refl
number_text-truthy (fraction minus m k) =
    with_sign-truthy minus _
      (truthy-append (to_decimal (m / power (suc k))) _ (to_decimal-truthy (m / power (suc k))))
number_text-truthy (infinite minus) = with_sign-truthy minus "Infinity" refl
