-- ===== src/Access/Recovery/Laws.antt =====
-- When the recovery page has a notice, and that its button stays on this host.
use text.Mathlib.TextLemmas.{cons-append}
use profit_decision_engine.Prelude.{
  String, Option, none, some, Bool, true, false, elem, truthy, or_else, ◌==◌, ◌≡◌, refl, ◌↔◌,
  Bool-cases, inl, inr, lookup, ap, ◌∙◌,
}
use profit_decision_engine.Access.Origin.{names_host}
use profit_decision_engine.Access.Recovery.{
  Notice, states, auth_failed, inherited_names, recovery_notice, act, property, property_of,
  Property, own, inherited, missing, chosen,
}
use profit_decision_engine.Prelude.TextLaws.{All-elem}

property_of-eq-inherited : (b : Bool) (o : Option Notice) → property_of b o ≡ inherited → b ≡ true
property_of-eq-inherited true o e = refl
property_of-eq-inherited false (some a) e = cc
property_of-eq-inherited false none e = cc

chosen-eq-none : (p : Property Notice) → chosen p ≡ none → p ≡ inherited
chosen-eq-none (own a) e = cc
chosen-eq-none inherited e = refl
chosen-eq-none missing e = cc

inherited_reason :
    (key : String) → recovery_notice (some key) ≡ none → elem key inherited_names ≡ true
unfolding recovery_notice
inherited_reason key e = elim (Bool-cases (truthy key)) [
  | inr h ↦ cc (let g : some auth_failed ≡ none = rw h at e in g)
  | inl h ↦
      property_of-eq-inherited (elem key inherited_names) (lookup key states)
        (chosen-eq-none (property key states) (rw h at e))
]

-- The page has no notice exactly when the reason spells an inherited member of objects.
pub recovery_notice-eq-none_iff :
    (key : String) → (recovery_notice (some key) ≡ none) ↔ (elem key inherited_names ≡ true)
unfolding recovery_notice
recovery_notice-eq-none_iff key = (
  inherited_reason key,
  All-elem (λ k. recovery_notice (some k) ≡ none) key inherited_names
      (
        refl,
        (refl, (refl, (refl, (refl, (refl, (refl, (refl, (refl, (refl, (refl, (refl, tt))))))))))),
      ),
)

-- The button of the recovery page never leads to another host.
pub act-names_host :
    (encode : String → String) (key return_to : Option String)
    → names_host (act encode key return_to) ≡ false
unfolding act
act-names_host encode key return_to = elim (Bool-cases (or_else key "" == "forbidden")) [
  | inl e ↦ rw e refl
  | inr e ↦ rw e (
      ap names_host (
        cons-append "/" "auth/dingtalk/start?return_to=" x
        ∙ ap (String.◌∷◌ "/") (cons-append "a" "uth/dingtalk/start?return_to=" x)))
]
  where
    x : String
    x = encode (or_else return_to "/")
