-- ===== src/Tests/Notices.antt =====
-- One open app, and the reminders of its participant (backend/app/services/event_hub.py,
-- backend/app/services/proactive.py).
use web_accessible.Prelude.{
  nat_eq, contains, Text, codes, text_eq, text_beq, Dict, lookup, ℕ, ◌≡◌, refl, ◌≢◌, true, some,
  List, [], ◌∷◌, arith, count,
}
use web_accessible.Live.Hub.{Hub, publish_all, queues_of, user_topic}
use web_accessible.Live.Hub.Backlog.{latest, publishes-latest}
use web_accessible.Live.Reminders.{Watcher, ReminderEvent, evaluate, scan}
use web_accessible.Live.Reminders.Once.{is_named, evaluate_once}
use web_accessible.Live.Reminders.Arrival.{events_of, scan-latest}

abbrev one_reader : Hub ℕ
one_reader = (user_topic (codes "u"), (1, 4 ∷ []) ∷ []) ∷ []

reader_waits : lookup 1 (queues_of (user_topic (codes "u")) one_reader) ≡ some (4 ∷ [])
unfolding lookup text_beq
reader_waits = refl

publishes-latest_example :
    (lookup 1 (
        queues_of
          (user_topic (codes "u"))
          (publish_all (user_topic (codes "u")) (5 ∷ 6 ∷ []) one_reader))
      ≡ some (latest (4 ∷ 5 ∷ 6 ∷ [])))
    × ((other : Text)
        → user_topic (codes "u") ≢ other
        → queues_of other (publish_all (user_topic (codes "u")) (5 ∷ 6 ∷ []) one_reader)
          ≡ queues_of other one_reader)
publishes-latest_example =
    publishes-latest (user_topic (codes "u")) 1 (5 ∷ 6 ∷ []) (4 ∷ []) one_reader reader_waits
      (omega arith)

-- A reminder is its identifier here.
abbrev itself : Text → Text
itself r = r

abbrev due : List Text
due = codes "bills" ∷ codes "pills" ∷ []

evaluate_once_example :
    (count (is_named itself (codes "pills")) (evaluate itself due (codes "bills" ∷ [])).1 ≡ 1)
    × (contains (evaluate itself due (codes "bills" ∷ [])).0 (codes "pills") ≡ true)
unfolding text_beq
evaluate_once_example = evaluate_once itself (codes "pills") due (codes "bills" ∷ [])

abbrev open_app : Watcher
open_app = record { participant_session_id = 1; announced = codes "bills" ∷ []; subscriptions = 1 }

abbrev watched_app : Dict Text Watcher × Hub (ReminderEvent Text)
watched_app = ((codes "u", open_app) ∷ [], (user_topic (codes "u"), (1, []) ∷ []) ∷ [])

app_is_watched : lookup (codes "u") watched_app.0 ≡ some open_app
unfolding lookup text_beq
app_is_watched = refl

app_waits : lookup 1 (queues_of (user_topic (codes "u")) watched_app.1) ≡ some []
unfolding lookup text_beq
app_waits = refl

scan-latest_example :
    let s = scan itself (codes "u") (some due) 9 watched_app in
    (lookup 1 (queues_of (user_topic (codes "u")) s.1)
      ≡ some (latest (events_of itself 9 (evaluate itself due (codes "bills" ∷ [])).1)))
    × ((scan itself (codes "u") (some due) 99 s).1 ≡ s.1)
scan-latest_example =
    scan-latest itself (codes "u") due 9 99 watched_app open_app 1 [] app_is_watched app_waits
      (omega arith)
