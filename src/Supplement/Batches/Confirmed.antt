-- ===== src/Supplement/Batches/Confirmed.antt =====
-- What BatchImportPage.tsx uploads: only what its form checked and the user confirmed.
use mathlib.Core.List.{Memᴰ}
use profit_decision_engine.Prelude.{
  String, List, [], ◌∷◌, Option, none, some, Bool, true, false, not, ◌&&◌, ◌≡◌, refl, sym, subst,
  ◌∙◌, Bool-cases, inl, inr, is_some,
}
use profit_decision_engine.Supplement.Batches.Import.{
  ImportPage, FormValues, Fields, initial, finished, ask, nothing, post, Entry, Event, selected,
  removed, submitted, returned, confirmed, answered, imported, failed, step, after, run_import,
  confirm, form_data,
}

-- The values come from a form that was submitted, and that passed.
pub record Origin (all : List Event) (values : FormValues) : Type 0 where
  pub fields : Fields
  pub submitted_form : Memᴰ (submitted fields) all
  pub passed : finished fields ≡ some values

abbrev Asks : List Event → Option FormValues → Type 0
Asks all asked = (values : FormValues) → asked ≡ some values → Origin all values

some-injective : (a b : FormValues) → some a ≡ some b → a ≡ b
some-injective a b h = cc

ask-Asks :
    (all : List Event) (fields : Fields) (checked : Option FormValues) (page : ImportPage)
    → Memᴰ (submitted fields) all
    → finished fields ≡ checked
    → Asks all page.confirm_values
    → Asks all (ask checked page).confirm_values
ask-Asks all fields none page m e o = o
ask-Asks all fields (some values) page m e o =
    λ v h. record { fields = fields; submitted_form = m; passed = e ∙ h }

run_import-confirm_values :
    (file : Option String) (asked : Option FormValues) (page : ImportPage)
    → (run_import file asked page).0.confirm_values ≡ page.confirm_values
unfolding run_import
run_import-confirm_values file none page = refl
run_import-confirm_values none (some values) page = refl
run_import-confirm_values (some file) (some values) page = refl

confirm-confirm_values :
    (b : Bool) (page : ImportPage) → (confirm b page).0.confirm_values ≡ page.confirm_values
unfolding confirm
confirm-confirm_values true page = refl
confirm-confirm_values false page = run_import-confirm_values page.file page.confirm_values page

step-Asks :
    (all : List Event) (event : Event) (page : ImportPage)
    → Memᴰ event all
    → Asks all page.confirm_values
    → Asks all (step event page).0.confirm_values
unfolding step
step-Asks all (selected name) page m o = o
step-Asks all removed page m o = o
step-Asks all (submitted fields) page m o =
    elim (Bool-cases (is_some page.file && not page.is_pending)) [
      | inl e ↦ rw e (ask-Asks all fields (finished fields) page m refl o)
      | inr e ↦ rw e o
    ]
step-Asks all returned page m o = λ v h. cc
step-Asks all confirmed page m o =
    subst (Asks all) (sym (confirm-confirm_values page.is_pending page)) o
step-Asks all (answered (imported idempotent id)) page m o = o
step-Asks all (answered (failed message)) page m o = o

abbrev Within : List Event → List Event → Type 0
Within all events = (event : Event) → Memᴰ event events → Memᴰ event all

after-Asks :
    (all events : List Event) (page : ImportPage)
    → Within all events
    → Asks all page.confirm_values
    → Asks all (after events page).confirm_values
unfolding after
after-Asks all [] page w o = o
after-Asks all (event ∷ events) page w o =
    after-Asks all events (step event page).0 (λ e m. w e (Memᴰ.tail m))
      (step-Asks all event page (w event (Memᴰ.head refl)) o)

-- An upload of the page: the values that were asked about, with the selected file.
pub record Upload (page : ImportPage) (body : List (String × Entry)) : Type 0 where
  pub values : FormValues
  pub file : String
  pub asked : page.confirm_values ≡ some values
  pub chosen : page.file ≡ some file
  pub sent : body ≡ form_data values file

run_import-post :
    (file : Option String) (asked : Option FormValues) (page : ImportPage)
    (body : List (String × Entry))
    → page.file ≡ file
    → page.confirm_values ≡ asked
    → (run_import file asked page).1 ≡ post body
    → Upload page body
unfolding run_import
run_import-post file none page body f a h = cc
run_import-post none (some values) page body f a h = cc
run_import-post (some file) (some values) page body f a h = record {
  values = values;
  file = file;
  asked = a;
  chosen = f;
  sent = cc;
}

confirm-post :
    (b : Bool) (page : ImportPage) (body : List (String × Entry))
    → (confirm b page).1 ≡ post body
    → (b ≡ false) × Upload page body
unfolding confirm
confirm-post true page body h = cc
confirm-post false page body h =
    (refl, run_import-post page.file page.confirm_values page body refl refl h)

step-post :
    (event : Event) (page : ImportPage) (body : List (String × Entry))
    → (step event page).1 ≡ post body
    → (event ≡ confirmed) × (page.is_pending ≡ false) × Upload page body
unfolding step
step-post (selected name) page body h = cc
step-post removed page body h = cc
step-post (submitted fields) page body h =
    elim (Bool-cases (is_some page.file && not page.is_pending)) [
      | inl e ↦ cc (let g : nothing ≡ post body = rw e at h in g)
      | inr e ↦ cc (let g : nothing ≡ post body = rw e at h in g)
    ]
step-post returned page body h = cc
step-post confirmed page body h =
    let c = confirm-post page.is_pending page body h in (refl, c.0, c.1)
step-post (answered (imported idempotent id)) page body h = cc
step-post (answered (failed message)) page body h = cc

-- Whatever happened since the page was opened, an upload is sent only when the user confirms and none
-- is running; it has the file that is selected, and the values that the dialog shows, which come
-- from a form that was submitted with every required field.
pub step-after-post :
    (events : List Event) (event : Event) (body : List (String × Entry))
    → (step event (after events initial)).1 ≡ post body
    → (event ≡ confirmed)
      × ((after events initial).is_pending ≡ false)
      × ((upload : Upload (after events initial) body) × Origin events upload.values)
step-after-post events event body h =
    let s = step-post event (after events initial) body h in
    let o = after-Asks events events initial (λ e m. m) (λ v e. cc) in
    (s.0, s.1, (s.2, o s.2.values s.2.asked))
