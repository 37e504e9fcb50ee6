-- ===== src/Prelude/Query.antt =====
-- `URLSearchParams`: the parameters of a query in order, as the pages and the API client use them.
-- Percent-encoding is left to the browser, which reads back what it wrote.
use profit_decision_engine.Prelude.{
  String, List, [], ◌∷◌, ◌++◌, none, some, false, lookup, truthy, or_else, if◌then◌else◌, ◌==◌, ◌≡◌,
  refl, arith, eq_iff, eq_refl, Bool-cases, inl, inr, ◌∙◌,
}

abbrev pub Params : Type 0
Params = List (String × String)

abbrev pub remove : String → Params → Params
remove k [] = []
remove k ((j, w) ∷ rest) = let tail = remove k rest in if j == k then tail else (j, w) ∷ tail

-- `params.set(k, v)`
unfoldable pub set : String → String → Params → Params
set k v [] = (k, v) ∷ []
set k v ((j, w) ∷ rest) =
    let tail = set k v rest in if j == k then (k, v) ∷ remove k rest else (j, w) ∷ tail

-- `params.append(k, v)`
abbrev pub append : String → String → Params → Params
append k v ps = ps ++ (k, v) ∷ []

-- `if (v) params.set(k, v)` and `if (v) params.append(k, v)`
unfoldable pub set_if : String → String → Params → Params
set_if k v ps = if truthy v then set k v ps else ps

unfoldable pub append_if : String → String → Params → Params
append_if k v ps = if truthy v then append k v ps else ps

-- `params.get(k) ?? ''`
abbrev pub get_or_empty : String → Params → String
get_or_empty k ps = or_else (lookup k ps) ""

lookup-remove :
    (j k : String) (ps : Params) → (k == j) ≡ false → lookup j (remove k ps) ≡ lookup j ps
lookup-remove j k [] h = refl
lookup-remove j k ((i, w) ∷ ps) h =
    ground (arith, eq_iff i k, eq_iff i j, eq_iff k j, lookup-remove j k ps h)

pub lookup-set :
    (j k v : String) (ps : Params)
    → lookup j (set k v ps) ≡ (if k == j then some v else lookup j ps)
unfolding set
lookup-set j k v [] = refl
lookup-set j k v ((i, w) ∷ ps) =
    ground (arith, eq_iff i k, eq_iff i j, eq_iff k j, lookup-set j k v ps, lookup-remove j k ps)

-- The value under `j` after a conditional write under `k`.
pub lookup-set_if :
    (j k v : String) (ps : Params)
    → lookup j (set_if k v ps)
      ≡ (if truthy v then (if k == j then some v else lookup j ps) else lookup j ps)
unfolding set_if
lookup-set_if j k v ps = elim (Bool-cases (truthy v)) [
  | inl e ↦ rw e (lookup-set j k v ps)
  | inr e ↦ rw e refl
]

pub lookup-set_if_other :
    (j k v : String) (ps : Params) → (k == j) ≡ false → lookup j (set_if k v ps) ≡ lookup j ps
lookup-set_if_other j k v ps h = lookup-set_if j k v ps ∙ ground (arith, h)

pub lookup-set_other :
    (j k v : String) (ps : Params) → (k == j) ≡ false → lookup j (set k v ps) ≡ lookup j ps
lookup-set_other j k v ps h = lookup-set j k v ps ∙ rw h refl

pub lookup-set_self : (k v : String) (ps : Params) → lookup k (set k v ps) ≡ some v
lookup-set_self k v ps = lookup-set k k v ps ∙ rw (eq_refl k) refl

-- Under a key that is not there yet, a conditional write is read back, as the empty text if the
-- value is empty.
pub get_or_empty-set_if :
    (k v : String) (ps : Params) → lookup k ps ≡ none → get_or_empty k (set_if k v ps) ≡ v
get_or_empty-set_if k String.[] ps h = rw (lookup-set_if k k "" ps) (rw h refl)
get_or_empty-set_if k (String.◌∷◌ c s) ps h =
    rw (lookup-set_if k k (String.◌∷◌ c s) ps) (rw (eq_refl k) refl)
