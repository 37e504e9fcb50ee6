-- ===== src/Supplement/Detail/Protocol.antt =====
-- The protocol between DecisionDetailPage.tsx and the server, as an abstract machine that knows only
-- which of the two commands is running, and what the server sees of the page.
use profit_decision_engine.Prelude.{
  String, List, [], ◌∷◌, Option, some, Bool, true, false, ◌≡◌, ◌+++◌,
}
use profit_decision_engine.Supplement.Detail.Forms.{
  DetailPage, Post, Event, submitted_review, submitted_action, review_answered, action_answered,
  review_refreshed, action_refreshed, Outcome, succeeded, failed, Run, idle, sent, refreshing, step,
}

-- What the server sees of the page.
pub data Label : Type 0 where
  sent_review sent_action : Post → Label
  got_review got_action : Bool → Label
  refreshed_review refreshed_action : Label

pub record Busy : Type 0 where
  pub review : Run
  pub action : Run

-- What an answer leaves: a success is followed by a refresh, a failure ends the command.
abbrev pub answered_run : Bool → Run
answered_run true = refreshing
answered_run false = idle

-- A run of the protocol that ends in `end`: a command is sent only while none of its kind is sent or
-- refreshes, one that is sent is answered, and a refresh ends only after a success. A review goes to
-- the address of its decision.
pub data Exchange (id : String) (end : Busy) : Busy → List Label → Type 0 where
  done : (s : Busy) → s ≡ end → Exchange id end s []
  send_review :
      (s : Busy)
      → (post : Post) → (labels : List Label) → s.review ≡ idle
      → post.path ≡ "/decisions/" +++ (id +++ "/review")
      → Exchange id end (record { review = sent; action = s.action }) labels
      → Exchange id end s (sent_review post ∷ labels)
  send_action :
      (s : Busy)
      → (post : Post) → (labels : List Label) → s.action ≡ idle
      → Exchange id end (record { review = s.review; action = sent }) labels
      → Exchange id end s (sent_action post ∷ labels)
  get_review :
      (s : Busy)
      → (good : Bool) → (labels : List Label) → s.review ≡ sent
      → Exchange id end (record { review = answered_run good; action = s.action }) labels
      → Exchange id end s (got_review good ∷ labels)
  get_action :
      (s : Busy)
      → (good : Bool) → (labels : List Label) → s.action ≡ sent
      → Exchange id end (record { review = s.review; action = answered_run good }) labels
      → Exchange id end s (got_action good ∷ labels)
  refresh_review :
      (s : Busy)
      → (labels : List Label) → s.review ≡ refreshing
      → Exchange id end (record { review = idle; action = s.action }) labels
      → Exchange id end s (refreshed_review ∷ labels)
  refresh_action :
      (s : Busy)
      → (labels : List Label) → s.action ≡ refreshing
      → Exchange id end (record { review = s.review; action = idle }) labels
      → Exchange id end s (refreshed_action ∷ labels)

abbrev pub busy : DetailPage → Busy
busy page = record { review = page.review_run; action = page.action_run }

abbrev pub is_success : Outcome → Bool
is_success succeeded = true
is_success (failed caught) = false

abbrev pub label_of : Event → Option Post → List Label → List Label
label_of (submitted_review text) (some post) rest = sent_review post ∷ rest
label_of (submitted_action values) (some post) rest = sent_action post ∷ rest
label_of (review_answered outcome) request rest = got_review (is_success outcome) ∷ rest
label_of (action_answered outcome) request rest = got_action (is_success outcome) ∷ rest
label_of review_refreshed request rest = refreshed_review ∷ rest
label_of action_refreshed request rest = refreshed_action ∷ rest
label_of event request rest = rest

-- What the server sees of a run.
abbrev pub observed : DetailPage → List Event → List Label
observed page [] = []
observed page (event ∷ events) =
    label_of event (step event page).1 (observed (step event page).0 events)

abbrev pub IsDue : Event → DetailPage → Type 0
IsDue (review_answered outcome) page = page.review_run ≡ sent
IsDue (action_answered outcome) page = page.action_run ≡ sent
IsDue review_refreshed page = page.review_run ≡ refreshing
IsDue action_refreshed page = page.action_run ≡ refreshing
IsDue event page = Unit

-- Only a command that was sent is answered, and only a refresh that runs ends.
abbrev pub Answerable : DetailPage → List Event → Type 0
Answerable page [] = Unit
Answerable page (event ∷ events) = IsDue event page × Answerable (step event page).0 events
