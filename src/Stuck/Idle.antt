-- ===== src/Stuck/Idle.antt =====
-- What the detector's idle clock means (backend/app/services/stuck_detector.py).
use web_accessible.Prelude.{
  nat_eq, Text, text_eq, ℕ, ◌+◌, ◌≤◌, ◌<◌, ◌≡◌, ◌≢◌, ◌⊎◌, Bool, false, none, some, arith,
}
use web_accessible.Contracts.Event.{EventType, event_type_eq, EventEnvelope}
use web_accessible.Stuck.{
  StuckReason, ObservationWindow, on_navigation, on_form, on_productive, is_productive, on_scroll,
  on_idle, idle_limit, observe_rest, observe_window,
}

module _ (event : EventEnvelope) (key : Text) (known_task known_site : Bool) (now : ℕ) where
  navigation_clock :
      (w : ObservationWindow)
      → ((on_navigation event key now w).0.last_productive_at ≡ now)
        ⊎ ((event.event_type ≢ EventType.navigation_observed)
            × ((on_navigation event key now w).0.last_productive_at ≡ w.last_productive_at))
  unfolding on_navigation
  navigation_clock w = ground arith

  navigation_not_idle :
      (w : ObservationWindow) → (on_navigation event key now w).1 ≢ some StuckReason.idle
  unfolding on_navigation
  navigation_not_idle w h = ground arith

  form_clock :
      (w : ObservationWindow)
      → (on_form event known_site now w).0.last_productive_at ≡ w.last_productive_at
  unfolding on_form
  form_clock w = ground arith

  form_not_idle :
      (w : ObservationWindow) → (on_form event known_site now w).1 ≢ some StuckReason.idle
  unfolding on_form
  form_not_idle w h = ground arith

  productive_clock :
      (w : ObservationWindow)
      → ((on_productive event now w).0.last_productive_at ≡ now)
        ⊎ ((is_productive event ≡ false)
            × ((on_productive event now w).0.last_productive_at ≡ w.last_productive_at))
  unfolding on_productive
  productive_clock w = ground arith

  productive_silent : (w : ObservationWindow) → (on_productive event now w).1 ≡ none
  unfolding on_productive
  productive_silent w = ground arith

  scroll_clock :
      (w : ObservationWindow) → (on_scroll event now w).0.last_productive_at ≡ w.last_productive_at
  unfolding on_scroll
  scroll_clock w = ground arith

  scroll_not_idle : (w : ObservationWindow) → (on_scroll event now w).1 ≢ some StuckReason.idle
  unfolding on_scroll
  scroll_not_idle w h = ground arith

  idle_clock :
      (w : ObservationWindow)
      → (on_idle known_task now w).1 ≡ some StuckReason.idle
      → (w.last_productive_at + idle_limit known_task ≤ now) × (0 < idle_limit known_task)
  unfolding on_idle
  idle_clock w h = ground arith

  rest_idle :
      (w : ObservationWindow)
      → (observe_rest event known_task known_site now w).1 ≡ some StuckReason.idle
      → (is_productive event ≡ false)
        × (w.last_productive_at + idle_limit known_task ≤ now)
        × (0 < idle_limit known_task)
  unfolding observe_rest
  rest_idle w h =
      let v = (on_form event known_site now w).0 in
      let u = (on_productive event now v).0 in
      let s = (on_scroll event now u).0 in
      ground (
        arith,
        form_clock w,
        form_not_idle w,
        productive_clock v,
        productive_silent v,
        scroll_clock u,
        scroll_not_idle u,
        idle_clock s,
      )

  -- The participant is reported idle only after an event that is neither productive nor a
  -- navigation, and only if the idle limit of the task has passed since the last productive moment.
  pub idle_needs_silence :
      (w : ObservationWindow)
      → (observe_window event key known_task known_site now w).1 ≡ some StuckReason.idle
      → (is_productive event ≡ false)
        × (event.event_type ≢ EventType.navigation_observed)
        × (w.last_productive_at + idle_limit known_task ≤ now)
  unfolding observe_window
  idle_needs_silence w h =
      let v = (on_navigation event key now w).0 in
      ground (arith, navigation_clock w, navigation_not_idle w, rest_idle v)
