-- ===== src/Access/Login/Targets.antt =====
-- Where a login and a return from a history detail may lead.
use text.Mathlib.TextLemmas.{cons-append, nil-append, cons-ne-nil, tail-eq_of_cons-eq}
use profit_decision_engine.Prelude.{
  String, Char, Option, none, some, true, false, not, ◌&&◌, ◌==◌, ◌≡◌, refl, ◌+++◌, starts_with,
  ◌⊎◌, arith, eq_iff, inl, inr, Bool-cases, ap, ◌∙◌,
}
use profit_decision_engine.Prelude.TextLaws.{starts_with_trans}
use profit_decision_engine.Access.Session.{BusinessRole, operations, supervisor, workbench_path}
use profit_decision_engine.Access.Origin.{names_host, IsPlainPath, without_dropped, two_slashes}
use profit_decision_engine.Access.Login.{login_target, safe_history_return}

without_dropped_of_IsPlainPath : (s : String) → IsPlainPath s → without_dropped s ≡ s
without_dropped_of_IsPlainPath String.[] h = refl
without_dropped_of_IsPlainPath (String.◌∷◌ c s) h =
    rw h.0 (ap (String.◌∷◌ c) (without_dropped_of_IsPlainPath s h.2))

two_slashes-plain :
    (s : String)
    → IsPlainPath s
    → starts_with s "/" ≡ true
    → starts_with s "//" ≡ false
    → two_slashes s ≡ false
two_slashes-plain String.[] h p q = refl
two_slashes-plain (String.◌∷◌ c String.[]) h p q = refl
two_slashes-plain (String.◌∷◌ c (String.◌∷◌ d s)) h p q = ground arith

workbench_path-names_host : (role : BusinessRole) → names_host (workbench_path role) ≡ false
workbench_path-names_host operations = refl
workbench_path-names_host supervisor = refl

workbench_path-starts_with : (role : BusinessRole) → starts_with (workbench_path role) "/" ≡ true
workbench_path-starts_with operations = refl
workbench_path-starts_with supervisor = refl

-- If the requested address has no backslash, tab or line end, a login leads to an address that starts
-- with a slash, and so names no scheme, and that names no host of its own.
pub login_target-names_host :
    (requested : String) (role : BusinessRole)
    → IsPlainPath requested
    → (starts_with (login_target requested role) "/" ≡ true)
      × (names_host (login_target requested role) ≡ false)
unfolding login_target
login_target-names_host requested role h =
    elim (Bool-cases
      (not (requested == "/") && starts_with requested "/" && not (starts_with requested "//"))) [
        | inr e ↦ rw e (workbench_path-starts_with role, workbench_path-names_host role)
        | inl e ↦ rw e (
          ground arith,
          ap two_slashes (without_dropped_of_IsPlainPath requested h)
              ∙ two_slashes-plain requested h (ground arith) (ground arith),
        )
      ]

backslash-cons : (rest : String) → ("/\\" +++ rest) ≡ String.◌∷◌ "/" (String.◌∷◌ "\\" rest)
backslash-cons rest =
    cons-append "/" "\\" rest
    ∙ ap (String.◌∷◌ "/") (cons-append "\\" "" rest ∙ ap (String.◌∷◌ "\\") (nil-append rest))

long-ne-slash : (d : Char) (s : String) → (String.◌∷◌ "/" (String.◌∷◌ d s) == "/") ≡ false
long-ne-slash d s = elim (Bool-cases (String.◌∷◌ "/" (String.◌∷◌ d s) == "/")) [
  | inr e ↦ e
  | inl e ↦
      absurd
        (cons-ne-nil d s (tail-eq_of_cons-eq ((eq_iff (String.◌∷◌ "/" (String.◌∷◌ d s)) "/").0 e)))
]

-- A requested address of a slash, a backslash and anything more is followed, and names a host.
pub login_target_backslash :
    (rest : String) (role : BusinessRole)
    → (login_target ("/\\" +++ rest) role ≡ "/\\" +++ rest) × (names_host ("/\\" +++ rest) ≡ true)
unfolding login_target
login_target_backslash rest role =
    rw (backslash-cons rest) (rw (long-ne-slash "\\" rest) refl, refl)

names_host-letter : (s : String) → starts_with s "/h" ≡ true → names_host s ≡ false
names_host-letter String.[] p = cc
names_host-letter (String.◌∷◌ c String.[]) p = ground arith
names_host-letter (String.◌∷◌ c (String.◌∷◌ d s)) p = ground arith

-- Whatever the address asks for, a return to the history leads to `/history` itself or to an address
-- that starts with `/history?`, and names no host of its own.
pub safe_history_return-history :
    (value : Option String)
    → ((safe_history_return value ≡ "/history")
        ⊎ (starts_with (safe_history_return value) "/history?" ≡ true))
      × (names_host (safe_history_return value) ≡ false)
unfolding safe_history_return
safe_history_return-history none = (inl refl, refl)
safe_history_return-history (some value) = elim (Bool-cases (starts_with value "/history?")) [
  | inr e ↦ rw e (inl refl, refl)
  | inl e ↦ rw e (inr e, names_host-letter value (starts_with_trans value "/history?" "/h" e refl))
]
