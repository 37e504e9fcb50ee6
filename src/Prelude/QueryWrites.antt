-- ===== src/Prelude/QueryWrites.antt =====
-- Writing several parameters, each under a name of its own, and reading one back.
use profit_decision_engine.Prelude.{
  String, List, [], ◌∷◌, ◌++◌, none, some, true, lookup, truthy, or_else, ◌==◌, ◌≡◌, refl, ap,
  eq_iff, Bool-cases, inl, inr, ◌∙◌, subst, sym,
}
use profit_decision_engine.Prelude.Query.{
  Params, set, set_if, append_if, get_or_empty, lookup-set_if_other, get_or_empty-set_if,
}

abbrev pub write_all : List (String × String) → Params → Params
write_all [] ps = ps
write_all ((k, v) ∷ rest) ps = write_all rest (set_if k v ps)

-- No name is written twice.
abbrev pub Distinct : List (String × String) → Type 0
Distinct [] = Unit
Distinct ((k, v) ∷ rest) = (lookup k rest ≡ none) × Distinct rest

get_or_empty-write_all_other :
    (j : String) (kvs : List (String × String)) (ps : Params)
    → lookup j kvs ≡ none
    → get_or_empty j (write_all kvs ps) ≡ get_or_empty j ps
get_or_empty-write_all_other j [] ps h = refl
get_or_empty-write_all_other j ((k, v) ∷ rest) ps h = elim (Bool-cases (k == j)) [
  | inl e ↦ cc (let g : some v ≡ none = rw e at h in g)
  | inr e ↦
      get_or_empty-write_all_other j rest (set_if k v ps) (rw e at h)
      ∙ ap (λ o. or_else o "") (lookup-set_if_other j k v ps e)
]

-- A value that was written under a fresh name is read back.
pub get_or_empty-write_all :
    (j : String) (kvs : List (String × String)) (ps : Params)
    → Distinct kvs
    → lookup j ps ≡ none
    → get_or_empty j (write_all kvs ps) ≡ or_else (lookup j kvs) ""
get_or_empty-write_all j [] ps d h = rw h refl
get_or_empty-write_all j ((k, v) ∷ rest) ps d h = elim (Bool-cases (k == j)) [
  | inl e ↦
      let same : k ≡ j = (eq_iff k j).0 e in
      let fresh : lookup j rest ≡ none = subst (λ i. lookup i rest ≡ none) same d.0 in
      rw e (
        get_or_empty-write_all_other j rest (set_if k v ps) fresh
        ∙ subst (λ i. get_or_empty j (set_if i v ps) ≡ v) (sym same) (get_or_empty-set_if j v ps h))
  | inr e ↦
      rw e (get_or_empty-write_all j rest (set_if k v ps) d.1 (lookup-set_if_other j k v ps e ∙ h))
]

-- A value that is not empty is written in any case.
pub set-set_if : (k v : String) (ps : Params) → truthy v ≡ true → set k v ps ≡ set_if k v ps
unfolding set_if
set-set_if k v ps h = rw h refl

set-append : (k v : String) (ps : Params) → lookup k ps ≡ none → set k v ps ≡ ps ++ (k, v) ∷ []
unfolding set
set-append k v [] h = refl
set-append k v ((j, w) ∷ ps) h = elim (Bool-cases (j == k)) [
  | inl e ↦ cc (let g : some w ≡ none = rw e at h in g)
  | inr e ↦ rw e (ap (λ l. (j, w) ∷ l) (set-append k v ps (rw e at h)))
]

-- Under a fresh name, appending is setting.
pub append_if-set_if :
    (k v : String) (ps : Params) → lookup k ps ≡ none → append_if k v ps ≡ set_if k v ps
unfolding append_if set_if
append_if-set_if k v ps h = elim (Bool-cases (truthy v)) [
  | inl e ↦ rw e (sym (set-append k v ps h))
  | inr e ↦ rw e refl
]
