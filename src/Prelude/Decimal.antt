-- ===== src/Prelude/Decimal.antt =====
-- `String(n)` and `Number(text)`. Numbers are exact: what a double rounds, overflows, or prints with
-- an exponent (from 10 ^ 21 on, and below 10 ^ -6) is left out.
use profit_decision_engine.Prelude.{
  ℕ, zero, suc, ◌+◌, ◌-◌, ◌*◌, ◌/◌, ◌%◌, String, Char, code, Option, none, some, Bool, true, false,
  leb, eqb, if◌then◌else◌, ◌&&◌, ◌||◌, ◌==◌, ◌+++◌, not, or_else, trim,
}

-- A number as `Number` reads it: `neg n` is the negative number -(n + 1).
pub data Number : Type 0 where
  nan : Number
  pos neg : ℕ → Number
  -- `fraction minus m k` is m / 10 ^ (k + 1), negative if `minus`; m is no multiple of ten.
  fraction : Bool → ℕ → ℕ → Number
  infinite : Bool → Number

-- `10 ^ k`
abbrev pub power : ℕ → ℕ
power zero = 1
power (suc k) = power k * 10

abbrev pub digit : ℕ → Char
digit zero = "0"
digit (suc zero) = "1"
digit (suc (suc zero)) = "2"
digit (suc (suc (suc zero))) = "3"
digit (suc (suc (suc (suc zero)))) = "4"
digit (suc (suc (suc (suc (suc zero))))) = "5"
digit (suc (suc (suc (suc (suc (suc zero)))))) = "6"
digit (suc (suc (suc (suc (suc (suc (suc zero))))))) = "7"
digit (suc (suc (suc (suc (suc (suc (suc (suc zero)))))))) = "8"
digit (suc (suc (suc (suc (suc (suc (suc (suc (suc n))))))))) = "9"

unfoldable pub print_onto : ℕ → ℕ → String → String
print_onto zero n out = out
print_onto (suc f) n out =
    let more = String.◌∷◌ (digit (n % 10)) out in
    elim (eqb (n / 10) 0) [ true ↦ more | false ↦ print_onto f (n / 10) more ]

-- `String(n)`; a number has no more digits than its successor.
unfoldable pub to_decimal : ℕ → String
unfolding print_onto
to_decimal n = print_onto (suc n) n ""

abbrev pub is_digit : ℕ → Bool
is_digit c = leb 48 c && leb c 57

unfoldable pub read_digits : ℕ → String → Option ℕ
read_digits acc String.[] = some acc
read_digits acc (String.◌∷◌ c s) =
    let rest = read_digits (acc * 10 + (code c - 48)) s in if is_digit (code c) then rest else none

abbrev pub positive : Option ℕ → Number
positive none = nan
positive (some n) = pos n

abbrev pub negative : Option ℕ → Number
negative none = nan
negative (some zero) = pos 0
negative (some (suc n)) = neg n

unfoldable pub unsigned : String → Option ℕ
unsigned String.[] = none
unsigned (String.◌∷◌ c s) = read_digits 0 (String.◌∷◌ c s)

unfoldable pub signed : String → Number
signed String.[] = pos 0
signed (String.◌∷◌ c s) =
    if eqb (code c) 45
    then negative (unsigned s)
    else if eqb (code c) 43
    then positive (unsigned s)
    else positive (read_digits 0 (String.◌∷◌ c s))

abbrev whole : Bool → ℕ → Number
whole true m = negative (some m)
whole false m = pos m

-- `m / 10 ^ k`, in lowest terms
abbrev scaled : Bool → ℕ → ℕ → Number
scaled minus m zero = whole minus m
scaled minus m (suc k) =
    let shorter = scaled minus (m / 10) k in if eqb (m % 10) 0 then shorter else fraction minus m k

-- The text before the first character of a kind, and the text after it.
abbrev split_at : (ℕ → Bool) → String → String × Option String
split_at is_mark String.[] = ("", none)
split_at is_mark (String.◌∷◌ c s) =
    let (before, after) = split_at is_mark s in
    if is_mark (code c) then ("", some s) else (String.◌∷◌ c before, after)

abbrev with_minus : Bool → Option ℕ → Option (Bool × ℕ)
with_minus minus none = none
with_minus minus (some n) = some (minus, n)

abbrev characters : String → ℕ
characters String.[] = 0
characters (String.◌∷◌ c s) = suc (characters s)

-- An exponent: whether it is negative, and its size.
unfoldable exponent : String → Option (Bool × ℕ)
unfolding unsigned
exponent String.[] = none
exponent (String.◌∷◌ c s) =
    if eqb (code c) 45
    then with_minus true (unsigned s)
    else if eqb (code c) 43
    then with_minus false (unsigned s)
    else with_minus false (unsigned (String.◌∷◌ c s))

abbrev raised : Bool → ℕ → ℕ → Bool × ℕ → Number
raised minus m places (true, n) = scaled minus m (places + n)
raised minus m places (false, n) =
    if leb places n then whole minus (m * power (n - places)) else scaled minus m (places - n)

-- The digits before and after the point, then the exponent.
unfoldable mantissa : Bool → String → String → Option (Bool × ℕ) → Number
unfolding read_digits unsigned
mantissa minus digits fractional none = nan
mantissa minus digits fractional (some e) = elim (unsigned (digits +++ fractional)) [
  | none ↦ nan
  | some m ↦ raised minus m (characters fractional) e
]

unfoldable decimal : Bool → String → Number
unfolding exponent mantissa
decimal minus s =
    let (front, power_text) = split_at (λ c. eqb c 101 || eqb c 69) s in
    let (digits, fractional) = split_at (λ c. eqb c 46) front in
    if s == "Infinity"
    then infinite minus
    else mantissa minus digits (or_else fractional "")
        (elim power_text [ none ↦ some (false, 0) | some t ↦ exponent t ])

-- A digit of a base up to 16
abbrev base_digit : ℕ → ℕ
base_digit c = if leb c 57 then c - 48 else if leb c 70 then c - 55 else c - 87

abbrev is_base_digit : ℕ → ℕ → Bool
is_base_digit base c =
    (is_digit c || (leb 65 c && leb c 70) || (leb 97 c && leb c 102))
    && not (leb base (base_digit c))

abbrev read_base : ℕ → ℕ → String → Option ℕ
read_base base acc String.[] = some acc
read_base base acc (String.◌∷◌ c s) =
    let rest = read_base base (acc * base + base_digit (code c)) s in
    if is_base_digit base (code c) then rest else none

abbrev based : ℕ → String → Number
based base String.[] = nan
based base (String.◌∷◌ c s) = positive (read_base base 0 (String.◌∷◌ c s))

-- The base that the second character of `0x`, `0o` and `0b` names.
abbrev base_of : ℕ → ℕ
base_of c =
    if eqb c 120 || eqb c 88
    then 16
    else if eqb c 111 || eqb c 79
    then 8
    else if eqb c 98 || eqb c 66
    then 2
    else 0

abbrev prefixed : String → Number
prefixed (String.◌∷◌ c (String.◌∷◌ d s)) =
    if eqb (code c) 48 && leb 2 (base_of (code d)) then based (base_of (code d)) s else nan
prefixed s = nan

abbrev pub or_number : Number → Number → Number
or_number nan b = b
or_number a b = a

-- Every other literal: a point, an exponent, an infinity or a base.
unfoldable pub literal : String → Number
unfolding decimal
literal String.[] = nan
literal (String.◌∷◌ c s) =
    if eqb (code c) 45
    then decimal true s
    else if eqb (code c) 43
    then decimal false s
    else or_number (prefixed (String.◌∷◌ c s)) (decimal false (String.◌∷◌ c s))

unfoldable pub number : String → Number
unfolding signed unsigned read_digits trim literal
number s = let t = trim s in or_number (signed t) (literal t)

-- The last `n` digits of a number, with leading zeros
abbrev padded : ℕ → ℕ → String → String
padded zero m out = out
padded (suc n) m out = padded n (m / 10) (String.◌∷◌ (digit (m % 10)) out)

abbrev pub with_sign : Bool → String → String
with_sign true s = String.◌∷◌ "-" s
with_sign false s = s

-- `String` of a number
abbrev pub number_text : Number → String
number_text nan = "NaN"
number_text (pos n) = to_decimal n
number_text (neg n) = String.◌∷◌ "-" (to_decimal (suc n))
number_text (fraction minus m k) =
    let scale = power (suc k) in
    with_sign minus (to_decimal (m / scale) +++ String.◌∷◌ "." (padded (suc k) (m % scale) ""))
number_text (infinite minus) = with_sign minus "Infinity"

-- `Number(x) || d`
abbrev pub nonzero_or : Number → ℕ → Number
nonzero_or nan d = pos d
nonzero_or (pos zero) d = pos d
nonzero_or n d = n
