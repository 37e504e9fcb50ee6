-- ===== src/Access/Origin.antt =====
-- When a text that is handed to `location.replace` leads to another host. Browsers drop tabs and
-- line ends, read a backslash as a slash, and take what follows two slashes for a host.
use profit_decision_engine.Prelude.{
  String, code, ℕ, Bool, false, eqb, if◌then◌else◌, ◌&&◌, ◌||◌, ◌≡◌,
}

abbrev is_dropped : ℕ → Bool
is_dropped c = eqb c 9 || eqb c 10 || eqb c 13

abbrev is_slash : ℕ → Bool
is_slash c = eqb c 47 || eqb c 92

abbrev pub without_dropped : String → String
without_dropped String.[] = ""
without_dropped (String.◌∷◌ c s) =
    let rest = without_dropped s in if is_dropped (code c) then rest else String.◌∷◌ c rest

abbrev pub two_slashes : String → Bool
two_slashes (String.◌∷◌ c (String.◌∷◌ d s)) = is_slash (code c) && is_slash (code d)
two_slashes _ = false

-- The address names a host of its own.
abbrev pub names_host : String → Bool
names_host s = two_slashes (without_dropped s)

-- None of the characters that a browser drops or reads as a slash, but the slash itself.
abbrev pub IsPlainPath : String → Type 0
IsPlainPath String.[] = Unit
IsPlainPath (String.◌∷◌ c s) =
    (is_dropped (code c) ≡ false) × (eqb (code c) 92 ≡ false) × IsPlainPath s
