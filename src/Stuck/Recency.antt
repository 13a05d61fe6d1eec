-- ===== src/Stuck/Recency.antt =====
-- What the detector's loops and clocks mean (backend/app/services/stuck_detector.py).
use web_accessible.Prelude.{
  nat_eq, Text, text_eq, ℕ, ◌+◌, ◌≤◌, ◌≡◌, refl, ◌≢◌, ◌↔◌, Bool, some, List, [], ◌∷◌, ◌++◌, arith,
  leb, length, keep, count, All,
}
use web_accessible.Contracts.Event.{EventType, event_type_eq, EventEnvelope}
use web_accessible.Stuck.{
  observe_window, observe_rest, on_form, on_productive, on_scroll, on_idle, StuckReason,
  ObservationWindow, seconds, trim, visits_of, on_navigation,
}

-- Times in the order in which they were recorded.
abbrev pub IsOrdered : List ℕ → Type 0
IsOrdered [] = Unit
IsOrdered (t ∷ ts) = All (λ u. t ≤ u) ts × IsOrdered ts

-- A time that does not lie before the cutoff.
abbrev pub is_recent : ℕ → ℕ → ℕ → Bool
is_recent span current t = leb current (t + span)

keep_recent :
    (span current t : ℕ) (ts : List ℕ)
    → current ≤ t + span
    → All (λ u. t ≤ u) ts
    → keep (is_recent span current) ts ≡ ts
keep_recent span current t [] h o = refl
keep_recent span current t (u ∷ us) h o = ground (arith, keep_recent span current t us)

-- On ordered times the loop that drops from the front keeps exactly the recent ones.
pub trim-eq-keep :
    (span current : ℕ) (ts : List ℕ)
    → IsOrdered ts
    → trim span current ts ≡ keep (is_recent span current) ts
unfolding trim
trim-eq-keep span current [] o = refl
trim-eq-keep span current (t ∷ ts) o =
    ground (arith, trim-eq-keep span current ts, keep_recent span current t ts)

IsOrdered-append_last :
    (ts : List ℕ) (n : ℕ) → IsOrdered ts → All (λ u. u ≤ n) ts → IsOrdered (ts ++ n ∷ [])
IsOrdered-append_last [] n o h = (tt, tt)
IsOrdered-append_last (t ∷ ts) n o h = (all_last ts t n o.0 h.0, IsOrdered-append_last ts n o.1 h.1)
  where
    all_last :
        (ts : List ℕ) (t n : ℕ) → All (λ u. t ≤ u) ts → t ≤ n → All (λ u. t ≤ u) (ts ++ n ∷ [])
    all_last [] t n a h = (h, tt)
    all_last (u ∷ us) t n a h = (a.0, all_last us t n a.1 h)

length-keep_last :
    (span n : ℕ) (ts : List ℕ)
    → length (keep (is_recent span n) (ts ++ n ∷ [])) ≡ count (is_recent span n) ts + 1
length-keep_last span n [] = ground arith
length-keep_last span n (t ∷ ts) = ground (arith, length-keep_last span n ts)

-- The number of visits left after a visit at `now` is recorded and the old ones are dropped.
visits_after :
    (span now : ℕ) (ts : List ℕ)
    → IsOrdered ts
    → All (λ u. u ≤ now) ts
    → length (trim span now (ts ++ now ∷ [])) ≡ count (is_recent span now) ts + 1
visits_after span now ts o h =
    rw (trim-eq-keep span now (ts ++ now ∷ []) (IsOrdered-append_last ts now o h))
      (length-keep_last span now ts)

rest_no_loop :
    (event : EventEnvelope) (known_task known_site : Bool) (now : ℕ) (w : ObservationWindow)
    → (observe_rest event known_task known_site now w).1 ≢ some StuckReason.url_loop
unfolding observe_rest on_form on_productive on_scroll on_idle
rest_no_loop event known_task known_site now w e = ground arith

module _ (event : EventEnvelope) (key : Text) (known_task known_site : Bool) (now : ℕ)
    (w : ObservationWindow) where
  navigation_loop :
      IsOrdered (visits_of key w.visits)
      → All (λ u. u ≤ now) (visits_of key w.visits)
      → event.event_type ≡ EventType.navigation_observed
      → ((on_navigation event key now w).1 ≡ some StuckReason.url_loop)
        ↔ (2 ≤ count (is_recent (seconds 120) now) (visits_of key w.visits))
  unfolding on_navigation
  navigation_loop o h e =
      let n = visits_after (seconds 120) now (visits_of key w.visits) o h in
      (λ r. ground (arith, n), λ r. ground (arith, n))

  loop_navigates :
      (on_navigation event key now w).1 ≡ some StuckReason.url_loop
      → event.event_type ≡ EventType.navigation_observed
  unfolding on_navigation
  loop_navigates h = ground arith

  window_loop :
      ((observe_window event key known_task known_site now w).1 ≡ some StuckReason.url_loop)
      ↔ ((on_navigation event key now w).1 ≡ some StuckReason.url_loop)
  unfolding observe_window
  window_loop = (
    λ h.
        ground
          (arith, rest_no_loop event known_task known_site now (on_navigation event key now w).0),
    λ h. ground (arith, loop_navigates h),
  )

  -- If the recorded visits of the page are in order and none lies in the future, the detector reports
  -- a loop exactly when the event is a navigation and at least two of those visits lie within the
  -- last two minutes.
  pub url_loop_iff :
      IsOrdered (visits_of key w.visits)
      → All (λ u. u ≤ now) (visits_of key w.visits)
      → ((observe_window event key known_task known_site now w).1 ≡ some StuckReason.url_loop) ↔ (
          (event.event_type ≡ EventType.navigation_observed)
          × (2 ≤ count (is_recent (seconds 120) now) (visits_of key w.visits)))
  url_loop_iff o h = (
    λ r.
        let n = window_loop.0 r in (loop_navigates n, (navigation_loop o h (loop_navigates n)).0 n),
    λ p. window_loop.1 ((navigation_loop o h p.0).1 p.1),
  )
