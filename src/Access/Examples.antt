-- ===== src/Access/Examples.antt =====
-- Tests of the login, recovery and routing code, and its theorems on concrete addresses.
use text.Mathlib.TextEquality.{Char-path}
use profit_decision_engine.Prelude.{
  String, Char, code, ℕ, zero, suc, Option, none, some, true, false, eqb, eqb→eq, Bool-cases, inl,
  inr, ◌⊎◌, ◌≡◌, refl, ap, sym, ◌+++◌, elem, starts_with, includes, truthy, if◌then◌else◌,
}
use profit_decision_engine.Access.Session.{operations, supervisor}
use profit_decision_engine.Access.Origin.{names_host}
use profit_decision_engine.Access.Login.{login_target, safe_history_return}
use profit_decision_engine.Access.Login.Targets.{
  login_target-names_host, login_target_backslash, safe_history_return-history,
}
use profit_decision_engine.Access.Recovery.{recovery_notice, inherited_names, act}
use profit_decision_engine.Access.Recovery.Laws.{recovery_notice-eq-none_iff, act-names_host}
use profit_decision_engine.Access.Router.{app, suggestion_detail, batch_detail}
use profit_decision_engine.Access.Router.Links.{UriCodec, app-suggestion, app-batch}

-- A codec that escapes the percent sign and the slash.
escape : String → String
escape String.[] = ""
escape (String.◌∷◌ c s) =
    let rest = escape s in
    if eqb (code c) 37
    then String.◌∷◌ "%" (String.◌∷◌ "2" (String.◌∷◌ "5" rest))
    else if eqb (code c) 47
    then String.◌∷◌ "%" (String.◌∷◌ "2" (String.◌∷◌ "F" rest))
    else String.◌∷◌ c rest

abbrev with_char : Char → Option String → Option String
with_char c none = none
with_char c (some s) = some (String.◌∷◌ c s)

-- `seen` counts the characters of an escape that were read.
unescape : ℕ → String → Option String
unescape zero String.[] = some ""
unescape (suc seen) String.[] = none
unescape zero (String.◌∷◌ c s) =
    let plain = unescape 0 s in
    let escaped = unescape 1 s in if eqb (code c) 37 then escaped else with_char c plain
unescape (suc zero) (String.◌∷◌ c s) =
    let more = unescape 2 s in if eqb (code c) 50 then more else none
unescape (suc (suc seen)) (String.◌∷◌ c s) =
    let rest = unescape 0 s in
    if eqb (code c) 53
    then with_char "%" rest
    else if eqb (code c) 70
    then with_char "/" rest
    else none

unescape-escape : (s : String) → unescape 0 (escape s) ≡ some s
unfolding escape unescape
unescape-escape String.[] = refl
unescape-escape (String.◌∷◌ c s) = elim (Bool-cases (eqb (code c) 37)) [
  | inl e ↦
      let same : "%" ≡ c = Char-path "%" c (sym (eqb→eq (code c) 37 e)) in
      rw e (rw (unescape-escape s) (ap (λ d. some (String.◌∷◌ d s)) same))
  | inr e ↦ rw e (elim (Bool-cases (eqb (code c) 47)) [
    | inl f ↦
        let same : "/" ≡ c = Char-path "/" c (sym (eqb→eq (code c) 47 f)) in
        rw f (rw (unescape-escape s) (ap (λ d. some (String.◌∷◌ d s)) same))
    | inr f ↦ rw f (rw e (rw (unescape-escape s) refl))
  ])
]

escape_slash : (s : String) → includes (escape s) "/" ≡ false
unfolding escape
escape_slash String.[] = refl
escape_slash (String.◌∷◌ c s) = elim (Bool-cases (eqb (code c) 37)) [
  | inl e ↦ rw e (escape_slash s)
  | inr e ↦ rw e (elim (Bool-cases (eqb (code c) 47)) [
    | inl f ↦ rw f (escape_slash s)
    | inr f ↦ rw f (rw f (escape_slash s))
  ])
]

escape-truthy : (s : String) → truthy s ≡ true → truthy (escape s) ≡ true
unfolding escape
escape-truthy String.[] h = h
escape-truthy (String.◌∷◌ c s) h = elim (Bool-cases (eqb (code c) 37)) [
  | inl e ↦ rw e refl
  | inr e ↦ rw e (elim (Bool-cases (eqb (code c) 47)) [ inl f ↦ rw f refl | inr f ↦ rw f refl ])
]

abbrev codec : UriCodec
codec = record {
  encode = escape;
  decode = unescape 0;
  decode-encode = unescape-escape;
  encode_slash = escape_slash;
  encode_truthy = escape-truthy;
}

app-suggestion_case : app (unescape 0) ("/suggestions/" +++ escape "a/b") ≡ suggestion_detail "a/b"
app-suggestion_case = app-suggestion codec "a/b" refl

app-batch_case : app (unescape 0) ("/batches/" +++ escape "b%1") ≡ batch_detail "b%1"
app-batch_case = app-batch codec "b%1" refl (unfold escape in refl)

login_target-names_host_example :
    (starts_with (login_target "/a?" operations) "/" ≡ true)
    × (names_host (login_target "/a?" operations) ≡ false)
login_target-names_host_example =
    login_target-names_host "/a?" operations (refl, refl, (refl, refl, (refl, refl, tt)))

login_target_backslash_example :
    (login_target "/\\evil.example" supervisor ≡ "/\\evil.example")
    × (names_host "/\\evil.example" ≡ true)
login_target_backslash_example = login_target_backslash "evil.example" supervisor

safe_history_return-history_example :
    ((safe_history_return (some "//evil.example") ≡ "/history")
      ⊎ (starts_with (safe_history_return (some "//evil.example")) "/history?" ≡ true))
    × (names_host (safe_history_return (some "//evil.example")) ≡ false)
safe_history_return-history_example = safe_history_return-history (some "//evil.example")

recovery_notice-eq-none_iff_example :
    (recovery_notice (some "toString") ≡ none → elem "toString" inherited_names ≡ true)
    × (elem "toString" inherited_names ≡ true → recovery_notice (some "toString") ≡ none)
recovery_notice-eq-none_iff_example = recovery_notice-eq-none_iff "toString"

act-names_host_case : names_host (act escape (some "network") (some "//evil.example")) ≡ false
act-names_host_case = act-names_host escape (some "network") (some "//evil.example")
