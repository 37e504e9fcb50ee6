-- ===== src/Prelude/DecimalTests.antt =====
-- Tests of reading and printing numbers.
use profit_decision_engine.Prelude.{true, false, ◌≡◌, refl}
use profit_decision_engine.Prelude.Decimal.{
  nan, pos, neg, fraction, infinite, number, number_text, to_decimal,
}

fraction_tests :
    (number "1.5" ≡ fraction false 15 0)
    × (number "-.50" ≡ fraction true 5 0)
    × (number "2.0" ≡ pos 2)
    × (number "2e1" ≡ pos 20)
    × (number "25E-1" ≡ fraction false 25 0)
    × (number "0x1F" ≡ pos 31)
    × (number "-Infinity" ≡ infinite true)
    × (number "." ≡ nan)
    × (number "1e" ≡ nan)
    × (number "0b12" ≡ nan)
unfolding number
fraction_tests = (refl, refl, refl, refl, refl, refl, refl, refl, refl, refl)

number_text_test : number_text (fraction true 1205 1) ≡ "-12.05"
unfolding to_decimal
number_text_test = refl

number_tests :
    (number "50" ≡ pos 50) × (number " -3 " ≡ neg 2) × (number "" ≡ pos 0) × (number "x" ≡ nan)
unfolding number
number_tests = (refl, refl, refl, refl)

to_decimal_test : to_decimal 1203 ≡ "1203"
unfolding to_decimal
to_decimal_test = refl
