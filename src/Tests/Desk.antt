-- ===== src/Tests/Desk.antt =====
-- An orchestrator over a browser that always answers, at the theorems on its handlers
-- (backend/app/services/orchestrator.py, backend/app/services/guidance.py).
use web_accessible.Prelude.{
  nat_eq, Text, codes, text_eq, text_beq_iff, text_beq, lower, lookup, ℕ, ◌+◌, ◌≡◌, refl, sym, ap,
  ◌∙◌, ◌≢◌, inl, true, false, none, some, [], ◌∷◌,
}
use web_accessible.Contracts.State.{SessionState, GuidanceMode}
use web_accessible.Contracts.Element.{SafetyClassification}
use web_accessible.Contracts.Event.{EventEnvelope, EventType}
use web_accessible.Stuck.{page_key}
use web_accessible.Safety.{evaluate, unknown_origin}
use web_accessible.Store.Types.{SessionView, EventRow, Store}
use web_accessible.Store.Sessions.{get_session, row_of}
use web_accessible.Store.Notices.{get_cooldown}
use web_accessible.Orchestrator.Desk.{Outside, Desk, Config, Started, RawSkill, GuidanceResult}
use web_accessible.Orchestrator.Planner.{
  shown, judge, record_call, highlight_step, chosen, available,
}
use web_accessible.Orchestrator.Decide.{decide, examine}
use web_accessible.Orchestrator.Planner.Presented.{IsCleared, presented-IsCleared}
use web_accessible.Orchestrator.Events.{handle_event}
use web_accessible.Orchestrator.Delivery.{IsDelivered, delivered, unbound_event_refused}
use web_accessible.Orchestrator.Dismissal.{dismissal_refused}
use web_accessible.Tests.Detector.{event_of}
use web_accessible.Tests.Policy.{control, advice, home}
use web_accessible.Tests.Storage.{session_in, one_row, watched}

abbrev pub settings : Config
settings = record {
  demo_target_url = home;
  demo_fallback_url = home;
  terminal_predicate = codes "done";
  model_name = codes "m";
  rate_card_version = codes "v";
  build_commit = codes "c";
  source_environment = codes "test";
}

-- The world is a clock; the planner advises the one control.
abbrev pub quiet : Outside
quiet = record {
  World = ℕ;
  now = λ w. (w, w + 1);
  fresh = λ w. (w, w + 1);
  start = λ i u s w. (Started.broken, w);
  stop = λ i r w. (some true, w);
  page_identity = λ i w. (none, w);
  snapshot = λ i w. (some (control [] ∷ []), w);
  highlight = λ i x w. (some true, w);
  clear_highlight = λ i w. (some tt, w);
  verify = λ i p w. (some true, w);
  ask_model = λ t xs m w. (
    some (
      advice SafetyClassification.safe,
      record {
        input_tokens = none;
        output_tokens = none;
        estimated_input_tokens = none;
        model = none;
        model_version = none;
        provider = none;
        rate_card_version = none;
        query_id = none;
      },
    ),
    w,
  );
  triage = λ t w. (some none, w);
  cost = λ i v u n w. (none, w);
  get_skill = λ u n w. (some RawSkill.other, w);
  save_teach_run = λ u i s n w. (none, w);
  save_skill_revision = λ u n s r w. (none, w);
  save_activity = λ u i w. (some tt, w);
  uuid_text = λ n. [];
  int_text = λ n. [];
  local_time = λ z n. (0, 0);
  task_digest = λ t. t;
  text_hash = λ t. t;
  payload_hash = λ p. [];
  predicate_json = λ p. [];
}

abbrev pub desk_with : Store → Desk quiet
desk_with s = record {
  store = s;
  active = [];
  skills = [];
  commands = [];
  pending_selector_attempts = [];
  windows = [];
  tasks = [];
  notices = [];
  outside = 100;
}

abbrev pub dismissed : EventEnvelope
dismissed = event_of EventType.guidance_dismissed

abbrev guided : Store
guided = record one_row {
  sessions = (7, row_of (session_in SessionState.awaiting_user_action)) ∷ [];
}

guided_found :
    get_session 7 (desk_with guided).store ≡ some (session_in SessionState.awaiting_user_action)
unfolding get_session lookup
guided_found = refl

dismissal_refused_example :
    let r = handle_event quiet settings dismissed (desk_with guided) in
    (r.0 ≡ none)
    × (r.1.store.sessions ≡ guided.sessions)
    × (r.1.commands ≡ [])
    × (r.1.active ≡ [])
    × (r.1.tasks ≡ [])
    × (get_cooldown (codes "u") (page_key dismissed.origin dismissed.redacted_path) r.1.store
        ≡ some 0)
    × ((handle_event quiet settings dismissed r.1).0 ≡ some false)
unfolding lookup
dismissal_refused_example =
    dismissal_refused quiet settings (session_in SessionState.awaiting_user_action) dismissed
      (desk_with guided) guided_found (refl, refl) refl refl refl

abbrev stranger : EventEnvelope
stranger = record dismissed { user_id = codes "other" }

watched_found :
    (v : SessionView) → get_session 7 (desk_with one_row).store ≡ some v → v.user_id ≡ codes "u"
unfolding get_session lookup
watched_found v h = let same : watched ≡ v = cc h in sym (ap (λ x. x.user_id) same)

strangers : ◌≢◌ {A = Text} (codes "other") (codes "u")
unfolding text_beq
strangers e = cc ((text_beq_iff (codes "other") (codes "u")).1 e)

unbound_event_refused_example :
    handle_event quiet settings stranger (desk_with one_row) ≡ (none, desk_with one_row)
unbound_event_refused_example =
    unbound_event_refused quiet settings stranger (desk_with one_row)
      (λ v found. inl (λ e. strangers (e ∙ watched_found v found)))

abbrev old_row : EventRow
old_row = record {
  session_id = 7;
  page_instance_id = 2;
  sequence_no = 0;
  payload = dismissed;
  occurred_at = 0;
  accepted_at = 5;
}

abbrev seen : Store
seen = record one_row { events = (1, old_row) ∷ [] }

seen_delivered : IsDelivered quiet settings dismissed (desk_with seen)
unfolding get_session lookup
seen_delivered = (watched, refl, (refl, refl), old_row, refl)

seen_again :
    handle_event quiet settings dismissed (desk_with seen)
    ≡ (some false, record (desk_with seen) { outside = 101 })
seen_again = delivered quiet settings dismissed (desk_with seen) seen_delivered

abbrev step_shown : GuidanceResult
step_shown = shown quiet settings watched (advice SafetyClassification.safe) (control []) 107

decides :
    (decide quiet settings watched
      (control [] ∷ [])
      (home ∷ [])
      home
      GuidanceMode.cold
      (desk_with one_row)).0
    ≡ some step_shown
unfolding decide examine judge evaluate record_call highlight_step chosen available text_beq
    unknown_origin lower
decides = refl

presented-IsCleared_example :
    IsCleared quiet settings watched (control [] ∷ []) (home ∷ []) home step_shown
presented-IsCleared_example =
    presented-IsCleared quiet settings watched (control [] ∷ []) (home ∷ []) home GuidanceMode.cold
      (desk_with one_row) step_shown decides refl
