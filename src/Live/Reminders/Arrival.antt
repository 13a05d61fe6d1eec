-- ===== src/Live/Reminders/Arrival.antt =====
-- What a scan for reminders brings to an open app (backend/app/services/proactive.py).
use web_accessible.Prelude.{
  nat_eq, contains, Text, text_eq, text_beq_refl, Dict, lookup-put, lookup, put, ℕ, ◌≤◌, ◌≡◌, refl,
  ap, ◌∙◌, some, List, [], ◌∷◌, ◌++◌, map, arith, length, count,
}
use web_accessible.Live.Hub.{Hub, capacity, publish_all, queues_of, user_topic}
use web_accessible.Live.Hub.Backlog.{latest, publishes-latest}
use web_accessible.Live.Reminders.{Watcher, ReminderEvent, ids, evaluate, scan}
use web_accessible.Live.Reminders.Once.{is_named, evaluate_once}

module _ {R : Type 0} (id : R → Text) where
  uncounted : (rs : List R) → ((x : Text) → count (is_named id x) rs ≡ 0) → rs ≡ []
  uncounted [] h = refl
  uncounted (r ∷ rs) h = absurd (ground (arith, h (id r), text_beq_refl (id r)))

  evaluate_silent :
      (rs : List R) (announced : List Text)
      → ((x : Text) → contains announced x ≡ contains (ids id rs) x)
      → (evaluate id rs announced).1 ≡ []
  evaluate_silent rs announced h =
      uncounted (evaluate id rs announced).1
        λ x. ground (arith, (evaluate_once id x rs announced).0, h x)

  abbrev pub events_of : ℕ → List R → List (ReminderEvent R)
  events_of now rs = map (λ r. record { reminder = r; published_at = now }) rs

  abbrev Desk : Type 0
  Desk = Dict Text Watcher × Hub (ReminderEvent R)

  scan_watched :
      (user : Text) (rs : List R) (now : ℕ) (s : Desk) (w : Watcher)
      → lookup user s.0 ≡ some w
      → scan id user (some rs) now s ≡ (
        put user (record w { announced = (evaluate id rs w.announced).0 }) s.0,
        publish_all (user_topic user) (events_of now (evaluate id rs w.announced).1) s.1,
      )
  unfolding scan
  scan_watched user rs now s w h = rw (scan, h) refl

  rescan :
      (user : Text) (rs : List R) (now later : ℕ) (s : Desk) (w : Watcher)
      → lookup user s.0 ≡ some w
      → (scan id user (some rs) later (scan id user (some rs) now s)).1
        ≡ (scan id user (some rs) now s).1
  rescan user rs now later s w h =
      let result = evaluate id rs w.announced in
      let w' = record w { announced = result.0 } in
      let s' : Desk =
        (put user w' s.0, publish_all (user_topic user) (events_of now result.1) s.1) in
      let there : lookup user s'.0 ≡ some w' =
        rw (lookup-put user user w' s.0, text_beq_refl user) refl in
      let silent = evaluate_silent rs result.0 (λ x. (evaluate_once id x rs w.announced).1) in
      rw (scan_watched user rs now s w h) (
        ap (λ z. z.1) (scan_watched user rs later s' w' there)
        ∙ ap (λ z. publish_all (user_topic user) (events_of later z) s'.1) silent)

  -- A scan brings each subscriber of a watched participant the reminders that the evaluation
  -- publishes, behind what its queue holds and within its room; a second scan with the same answer
  -- brings nothing more, at whatever time.
  pub scan-latest :
      (user : Text) (rs : List R) (now later : ℕ) (s : Desk) (w : Watcher) (i : ℕ)
      (queue : List (ReminderEvent R))
      → lookup user s.0 ≡ some w
      → lookup i (queues_of (user_topic user) s.1) ≡ some queue
      → length queue ≤ capacity
      → let s' = scan id user (some rs) now s in
        (lookup i (queues_of (user_topic user) s'.1)
          ≡ some (latest (queue ++ events_of now (evaluate id rs w.announced).1)))
        × ((scan id user (some rs) later s').1 ≡ s'.1)
  scan-latest user rs now later s w i queue h held room = (
    rw (scan_watched user rs now s w h)
        (publishes-latest (user_topic user) i (events_of now (evaluate id rs w.announced).1) queue
          s.1 held room).0,
    rescan user rs now later s w h,
  )
