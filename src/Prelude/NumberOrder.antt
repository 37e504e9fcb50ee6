-- ===== src/Prelude/NumberOrder.antt =====
-- The comparison of numbers.
use profit_decision_engine.Prelude.{
  ℕ, suc, ◌*◌, Bool, true, false, not, leb, ◌&&◌, ◌||◌, if◌then◌else◌,
}
use profit_decision_engine.Prelude.Decimal.{Number, nan, pos, neg, fraction, infinite, power}

abbrev is_negative : Number → Bool
is_negative (neg n) = true
is_negative (fraction minus m k) = minus
is_negative (infinite minus) = minus
is_negative _ = false

-- The size of a finite number, as a numerator over a power of ten.
abbrev numerator : Number → ℕ
numerator (pos n) = n
numerator (neg n) = suc n
numerator (fraction minus m k) = m
numerator _ = 0

abbrev scale : Number → ℕ
scale (fraction minus m k) = power (suc k)
scale _ = 1

abbrev size_at_most : Number → Number → Bool
size_at_most a b = leb (numerator a * scale b) (numerator b * scale a)

abbrev finite_at_most : Number → Number → Bool
finite_at_most a b =
    if is_negative a
    then not (is_negative b) || size_at_most b a
    else not (is_negative b) && size_at_most a b

-- `a <= b`
abbrev pub at_most : Number → Number → Bool
at_most nan b = false
at_most a nan = false
at_most (infinite true) b = true
at_most (infinite false) (infinite false) = true
at_most (infinite false) b = false
at_most a (infinite minus) = not minus
at_most (fraction minus m k) b = finite_at_most (fraction minus m k) b
at_most a (fraction minus m k) = finite_at_most a (fraction minus m k)
at_most (pos a) (pos b) = leb a b
at_most (neg a) (pos b) = true
at_most (pos a) (neg b) = false
at_most (neg a) (neg b) = leb b a
