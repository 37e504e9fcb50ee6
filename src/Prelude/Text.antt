-- ===== src/Prelude/Text.antt =====
-- Texts, as sequences of code points: what the source uses of `String.prototype`.
use Prim.Native.Nat.{ℕ, zero, suc, compare, Ordering}
use Prim.Native.Char.{code}
use Prim.Native.String
use Prim.Native.String.{String}
use mathlib.Core.Bool.{Bool, true, false, not, ◌&&◌, ◌||◌}
use mathlib.Core.Option.{Option, none, some}
use mathlib.Core.List.{List, [], ◌∷◌}
use text.Mathlib.Text.{◌==◌}
use profit_decision_engine.Prelude.Tests.{leb, eqb, if◌then◌else◌}

-- `a + b` and template literals
infixr 65 ◌+++◌
abbrev pub ◌+++◌ : String → String → String
a +++ b = String.◌++◌ a b

-- A non-empty text is truthy.
abbrev pub truthy : String → Bool
truthy String.[] = false
truthy (String.◌∷◌ c s) = true

-- The white space and line terminators that `trim` removes.
unfoldable pub is_space : ℕ → Bool
is_space c =
    leb 9 c && leb c 13
    || eqb c 32
    || eqb c 160
    || eqb c 0x1680
    || leb 0x2000 c && leb c 0x200a
    || eqb c 0x2028
    || eqb c 0x2029
    || eqb c 0x202f
    || eqb c 0x205f
    || eqb c 0x3000
    || eqb c 0xfeff

unfoldable pub trim_start : String → String
unfolding is_space
trim_start String.[] = ""
trim_start (String.◌∷◌ c s) =
    let rest = trim_start s in if is_space (code c) then rest else String.◌∷◌ c s

unfoldable pub trim_end : String → String
unfolding is_space
trim_end String.[] = ""
trim_end (String.◌∷◌ c s) =
    let rest = trim_end s in
    if is_space (code c) && not (truthy rest) then "" else String.◌∷◌ c rest

unfoldable pub trim : String → String
unfolding trim_start trim_end
trim s = trim_end (trim_start s)

-- `s.startsWith(t)`
abbrev pub starts_with : String → String → Bool
starts_with s String.[] = true
starts_with String.[] (String.◌∷◌ d t) = false
starts_with (String.◌∷◌ c s) (String.◌∷◌ d t) = eqb (code c) (code d) && starts_with s t

-- `s.includes(t)`
abbrev pub includes : String → String → Bool
includes String.[] t = not (truthy t)
includes (String.◌∷◌ c s) t = starts_with (String.◌∷◌ c s) t || includes s t

-- `s.slice(0, n)` and `s.slice(n)`
abbrev pub slice_to : ℕ → String → String
slice_to zero s = ""
slice_to (suc n) String.[] = ""
slice_to (suc n) (String.◌∷◌ c s) = String.◌∷◌ c (slice_to n s)

abbrev pub slice_from : ℕ → String → String
slice_from zero s = s
slice_from (suc n) String.[] = ""
slice_from (suc n) (String.◌∷◌ c s) = slice_from n s

-- `a < b` on strings
abbrev pub text_lt : String → String → Bool
text_lt String.[] String.[] = false
text_lt String.[] (String.◌∷◌ d t) = true
text_lt (String.◌∷◌ c s) String.[] = false
text_lt (String.◌∷◌ c s) (String.◌∷◌ d t) = elim (compare (code c) (code d)) [
  | Ordering.lt ↦ true
  | Ordering.eq ↦ text_lt s t
  | Ordering.gt ↦ false
]

-- `parts.join(sep)`
abbrev pub join : String → List String → String
join sep [] = ""
join sep (x ∷ []) = x
join sep (x ∷ (y ∷ ys)) = x +++ (sep +++ join sep (y ∷ ys))

-- `record[key]` on an object literal used as a table
abbrev pub lookup {ℓ} : {V : Type ℓ} → String → List (String × V) → Option V
lookup key [] = none
lookup key ((k, v) ∷ rest) = if k == key then some v else lookup key rest

-- `[a, b, …].includes(x)`
abbrev pub elem : String → List String → Bool
elem x [] = false
elem x (y ∷ ys) = y == x || elem x ys
