-- ===== src/Stuck.antt =====
-- The detector of a participant who is stuck (backend/app/services/stuck_detector.py). An instant is
-- a number of microseconds.
pub mod Recency
pub mod Idle
use web_accessible.Prelude.{
  Comparable, ◌==◌, nat_eq, eq_of_discrete, contains, dec_beq_iff, Text, codes, text_eq, is_space,
  is_nonempty, text_beq_iff, text_beq_refl, lower_idem, text_beq, lower_char, lower, lstrip, strip,
  is_blank, starts_with, occurs_in, Dict, lookup-put, lookup-remove, lookup-set_default, dict_laws,
  lookup, put, remove, set_default, ℕ, zero, suc, ◌+◌, ◌-◌, ◌*◌, ◌/◌, ◌%◌, ◌≤◌, ◌<◌, ◌≡◌, refl, sym,
  ap, ◌∙◌, ◌≢◌, ◌↔◌, ◌⊎◌, inl, inr, Bool, true, false, not, ◌&&◌, ◌||◌, Option, none, some, List,
  [], ◌∷◌, ◌++◌, map, reverse, arith, ltb, leb, nat_beq, if◌then◌else◌, ltb→lt, lt→ltb, leb→le,
  le→leb, nat_beq_iff, Bool-cases, Option-cases, length, get_elem?, set, take, drop, keep, count,
  any, all, All, length-append, length-set, length-keep, count-le-length, pos_part, neg_part, sub_ℕ,
  leb_ℤ, ltb_ℤ, sub_ℕ-le_iff, sub_ℕ-lt_iff, ℤ, pos, negsuc,
}
use web_accessible.Url.{scheme, netloc}
use web_accessible.Contracts.Event.{
  EventType, EventType-discrete, event_type_eq, EventPayload, EventEnvelope,
}

pub data StuckReason : Type 0 where
  idle url_loop scroll_loop route_departure partial_form_idle unknown_sensitive_request :
      StuckReason
  explicit_help : StuckReason

pub record ObservationWindow : Type 0 where
  pub last_productive_at : ℕ
  pub page_key : Text
  pub known_task : Bool
  pub partly_filled_at : Option ℕ
  pub visits : Dict Text (List ℕ)
  pub scrolls : List (ℕ × ℕ)
  pub offered : Bool

abbrev pub seconds : ℕ → ℕ
seconds n = n * 1000000

flush : Text → List Text → List Text
flush [] parts = parts
flush (c ∷ s) parts = (c ∷ s) ∷ parts

-- `path.split("/")` without its empty parts; `part` is what was read of the current one.
segments : Text → Text → List Text
unfolding flush
segments part [] = flush part []
segments part (c ∷ s) =
    let ended = flush part (segments [] s) in
    let longer = segments (part ++ c ∷ []) s in if c == b'/' then ended else longer

join_segments : List Text → Text
join_segments [] = []
join_segments (p ∷ ps) = codes "/" ++ (p ++ join_segments ps)

strip_slashes_left : Text → Text
strip_slashes_left [] = []
strip_slashes_left (c ∷ s) = let rest = strip_slashes_left s in if c == b'/' then rest else c ∷ s

-- `text.rstrip("/") or "/"`
rstrip_slashes : Text → Text
unfolding strip_slashes_left
rstrip_slashes s =
    let kept = reverse (strip_slashes_left (reverse s)) in
    if is_nonempty kept then kept else codes "/"

-- `StuckDetector.page_key`. A path with no part leaves `/`, which `rstrip` takes off again.
unfoldable pub page_key : Text → Text → Text
unfolding segments join_segments rstrip_slashes scheme netloc lower
page_key origin path = rstrip_slashes (
    lower (scheme origin)
    ++ (codes "://" ++ (lower (netloc origin) ++ join_segments (segments [] path))))

-- `_trim` with `cutoff = current - span`: drops from the front what lies before the cutoff.
unfoldable pub trim : ℕ → ℕ → List ℕ → List ℕ
trim span current [] = []
trim span current (t ∷ ts) =
    let rest = trim span current ts in if ltb (t + span) current then rest else t ∷ ts

-- The same loop over the scrolls.
unfoldable pub trim_scrolls : ℕ → ℕ → List (ℕ × ℕ) → List (ℕ × ℕ)
trim_scrolls span current [] = []
trim_scrolls span current ((t, d) ∷ ts) =
    let rest = trim_scrolls span current ts in if ltb (t + span) current then rest else (t, d) ∷ ts

unfoldable pub total_delta : List (ℕ × ℕ) → ℕ
total_delta [] = 0
total_delta ((t, d) ∷ ts) = d + total_delta ts

-- `visits[page_key]` of a `defaultdict(deque)`
abbrev pub visits_of : Text → Dict Text (List ℕ) → List ℕ
visits_of key visits = elim (lookup key visits) [ none ↦ [] | some ts ↦ ts ]

abbrev pub Observed : Type 0
Observed = ObservationWindow × Option StuckReason

-- The rest of `observe` runs unless a reason was returned.
infixl 6 ◌▹◌
abbrev pub ◌▹◌ : Observed → (ObservationWindow → Observed) → Observed
(w, some reason) ▹ rest = (w, some reason)
(w, none) ▹ rest = rest w

-- The block of `NAVIGATION_OBSERVED`.
unfoldable pub on_navigation : EventEnvelope → Text → ℕ → ObservationWindow → Observed
unfolding EventType-discrete trim
on_navigation event key current w =
    if event.event_type == EventType.navigation_observed
    then (let recent = trim (seconds 120) current (visits_of key w.visits ++ current ∷ []) in
        let w' = record w {
          page_key = key;
          visits = put key recent w.visits;
          last_productive_at = current;
        } in
        if leb 3 (length recent)
        then (w', some StuckReason.url_loop)
        else if event.payload.known_route_departure
        then (w', some StuckReason.route_departure)
        else (w', none))
    else (w, none)

-- The block of `FORM_PROGRESS_OBSERVED`.
unfoldable pub on_form : EventEnvelope → Bool → ℕ → ObservationWindow → Observed
unfolding EventType-discrete
on_form event known_site current w =
    if event.event_type == EventType.form_progress_observed
    then (let w' =
          if event.payload.partly_filled then record w { partly_filled_at = some current } else w in
        if event.payload.sensitive && not known_site
        then (w', some StuckReason.unknown_sensitive_request)
        else (w', none))
    else (w, none)

-- A productive event: an action of the participant, a verification, or an interaction marked so.
unfoldable pub is_productive : EventEnvelope → Bool
unfolding EventType-discrete
is_productive event =
    event.event_type == EventType.user_action_observed
    || event.event_type == EventType.verification_observed
    || (event.event_type == EventType.interaction_observed && event.payload.productive)

unfoldable pub on_productive : EventEnvelope → ℕ → ObservationWindow → Observed
unfolding EventType-discrete is_productive
on_productive event current w =
    if is_productive event
    then (
      record w {
        last_productive_at = current;
        scrolls = [];
        partly_filled_at =
            if event.event_type == EventType.verification_observed && event.payload.verified
            then none
            else w.partly_filled_at;
      },
      none,
    )
    else (w, none)

-- The block of a scroll.
unfoldable pub on_scroll : EventEnvelope → ℕ → ObservationWindow → Observed
unfolding EventType-discrete trim_scrolls total_delta
on_scroll event current w =
    if event.event_type == EventType.interaction_observed && event.payload.is_scroll
    then (let recent =
          trim_scrolls (seconds 20) current
            (w.scrolls ++ (current, event.payload.viewport_delta) ∷ []) in
        (
          record w { scrolls = recent },
          if leb 4 (length recent) && leb 3000 (total_delta recent)
              then some StuckReason.scroll_loop
              else none,
        ))
    else (w, none)

-- `current - since >= span`
abbrev pub has_elapsed : ℕ → ℕ → ℕ → Bool
has_elapsed span since current = leb (since + span) current

abbrev form_is_idle : Option ℕ → ℕ → Bool
form_is_idle none current = false
form_is_idle (some since) current = has_elapsed (seconds 40) since current

abbrev pub idle_limit : Bool → ℕ
idle_limit known_task = if known_task then seconds 45 else seconds 60

-- The two clocks at the end.
unfoldable pub on_idle : Bool → ℕ → ObservationWindow → Observed
on_idle known_task current w =
    if form_is_idle w.partly_filled_at current
    then (w, some StuckReason.partial_form_idle)
    else if has_elapsed (idle_limit known_task) w.last_productive_at current
    then (w, some StuckReason.idle)
    else (w, none)

-- The blocks of `observe` behind the navigation.
unfoldable pub observe_rest : EventEnvelope → Bool → Bool → ℕ → ObservationWindow → Observed
observe_rest event known_task known_site current w = on_form event known_site current w ▹ (λ v.
    on_productive event current v ▹ (λ u. on_scroll event current u ▹ on_idle known_task current))

-- `observe` on the session's window.
unfoldable pub observe_window :
    EventEnvelope → Text → Bool → Bool → ℕ → ObservationWindow → Observed
unfolding EventType-discrete
observe_window event key known_task known_site current w =
    if event.event_type == EventType.help_requested
    then (w, some StuckReason.explicit_help)
    else on_navigation event key current w ▹ observe_rest event known_task known_site current

abbrev new_window : ℕ → Text → Bool → ObservationWindow
new_window current key known_task = record {
  last_productive_at = current;
  page_key = key;
  known_task = known_task;
  partly_filled_at = none;
  visits = [];
  scrolls = [];
  offered = false;
}

abbrev pub window_of : Option ObservationWindow → ObservationWindow → ObservationWindow
window_of none w = w
window_of (some v) w = v

-- `observe`: the windows of all sessions, and the reason. A session's first event makes its window.
unfoldable pub observe :
    EventEnvelope
    → Bool
    → Bool
    → ℕ
    → Dict ℕ ObservationWindow
    → Dict ℕ ObservationWindow × Option StuckReason
observe event known_task known_site current windows =
    let key = page_key event.origin event.redacted_path in
    let w = window_of (lookup event.session_id windows) (new_window current key known_task) in
    let (w', reason) = observe_window event key known_task known_site current w in
    (put event.session_id w' windows, reason)

-- `clear_offer`
unfoldable pub clear_offer : ℕ → Dict ℕ ObservationWindow → Dict ℕ ObservationWindow
clear_offer session_id windows = elim (lookup session_id windows) [
  | none ↦ windows
  | some w ↦ put session_id (record w { offered = false }) windows
]
