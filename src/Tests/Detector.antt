-- ===== src/Tests/Detector.antt =====
-- A participant who goes round in circles, and one who falls silent
-- (backend/app/services/stuck_detector.py).
use web_accessible.Prelude.{
  nat_eq, Text, codes, text_eq, text_beq, lookup, put, ◌+◌, ◌≤◌, ◌≡◌, refl, ◌≢◌, ◌↔◌, true, false,
  none, some, [], ◌∷◌, arith, count,
}
use web_accessible.Contracts.Event.{EventType, EventPayload, EventEnvelope}
use web_accessible.Stuck.{
  StuckReason, ObservationWindow, page_key, seconds, visits_of, on_navigation, observe_rest,
  on_form, on_productive, on_scroll, on_idle, is_productive, idle_limit, observe_window,
}
use web_accessible.Stuck.Recency.{is_recent, url_loop_iff}
use web_accessible.Stuck.Idle.{idle_needs_silence}

abbrev pub plain : EventPayload
plain = record {
  known_route_departure = false;
  partly_filled = false;
  sensitive = false;
  productive = false;
  verified = false;
  is_scroll = false;
  viewport_delta = 0;
  wrong_click = false;
  candidate = none;
  css_path = none;
  entries = [];
}

abbrev pub event_of : EventType → EventEnvelope
event_of kind = record {
  event_id = 1;
  session_id = 7;
  user_id = codes "u";
  browserbase_session_id = codes "b";
  page_id = [];
  page_instance_id = 2;
  sequence_no = 0;
  occurred_at = 0;
  origin = codes "https://example.com";
  redacted_path = codes "//a/b/";
  event_type = kind;
  payload = plain;
}

key_of_page :
    page_key (codes "HTTPS://Example.com") (codes "//a/b/") ≡ codes "https://example.com/a/b"
unfolding page_key
key_of_page = refl

key_of_root : page_key (codes "https://example.com") (codes "/") ≡ codes "https://example.com"
unfolding page_key
key_of_root = refl

abbrev page : Text
page = codes "p"

abbrev circling : ObservationWindow
circling = record {
  last_productive_at = seconds 90;
  page_key = page;
  known_task = true;
  partly_filled_at = none;
  visits = (page, seconds 10 ∷ seconds 90 ∷ []) ∷ [];
  scrolls = [];
  offered = false;
}

third_visit :
    (observe_window
      (event_of EventType.navigation_observed)
      page
      true
      true
      (seconds 100)
      circling).1
    ≡ some StuckReason.url_loop
unfolding observe_window on_navigation lookup text_beq put
third_visit = refl

url_loop_iff_example :
    ((observe_window
        (event_of EventType.navigation_observed)
        page
        true
        true
        (seconds 100)
        circling).1
      ≡ some StuckReason.url_loop)
    ↔ ((◌≡◌ {A = EventType} EventType.navigation_observed EventType.navigation_observed)
        × (2 ≤ count (is_recent (seconds 120) (seconds 100)) (visits_of page circling.visits)))
unfolding lookup text_beq
url_loop_iff_example =
    url_loop_iff (event_of EventType.navigation_observed) page true true (seconds 100) circling
      (omega arith) (omega arith)

silent :
    (observe_window (event_of EventType.page_observed) page true true (seconds 200) circling).1
    ≡ some StuckReason.idle
unfolding observe_window observe_rest on_navigation on_form on_productive on_scroll on_idle
silent = refl

idle_needs_silence_example :
    (is_productive (event_of EventType.page_observed) ≡ false)
    × (◌≢◌ {A = EventType} EventType.page_observed EventType.navigation_observed)
    × (seconds 90 + idle_limit true ≤ seconds 200)
idle_needs_silence_example =
    idle_needs_silence (event_of EventType.page_observed) page true true (seconds 200) circling
      silent
