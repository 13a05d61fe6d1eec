-- ===== src/Orchestrator/Action.antt =====
-- What a trusted action of the participant does to the session
-- (backend/app/services/orchestrator.py).
use web_accessible.Prelude.{
  nat_eq, contains, Text, codes, text_eq, is_nonempty, put, ℕ, Bool, true, false, ◌||◌, Option,
  none, some, List, [], ◌∷◌, ◌++◌, if◌then◌else◌,
}
use web_accessible.Contracts.State.{state_eq, mode_eq, SyncState}
use web_accessible.Contracts.Json.{Json, null, flag, number, text, ident, instant, item}
use web_accessible.Contracts.Event.{EventEnvelope}
use web_accessible.Contracts.Element.{
  ElementCandidate, VerificationPredicate, VerificationType, SelectorBundle, SelectorType,
}
use web_accessible.Contracts.Skill.{SkillStep, SkillDocument, SkillOutcome}
use web_accessible.Skill.Recorder.{verified_step}
use web_accessible.Skill.Repair.{revise_one_step}
use web_accessible.Store.Types.{SessionView}
use web_accessible.Store.Ledger.{record_step}
use web_accessible.Orchestrator.Desk.{
  Outside, M, Config, Receipt, ◌>>=◌, ◌>>◌, ret, need, done, on_store, ask, call, attempt, cond_m,
}
use web_accessible.Orchestrator.Moves.{update}
use web_accessible.Orchestrator.Telemetry.{send, source}
use web_accessible.Orchestrator.Outcome.{complete}
use web_accessible.Orchestrator.Guide.{load_skill, skill_name}

abbrev pub given : Option Text → Option Text
given none = none
given (some t) = if is_nonempty t then some t else none

abbrev pub or_text : Option Text → Text → Text
or_text o t = elim (given o) [ none ↦ t | some u ↦ u ]

abbrev is_one_of : List Text → Option Text → Bool
is_one_of names none = false
is_one_of names (some t) = contains names t

-- `_predicate_for_candidate`
unfoldable pub predicate_for_candidate : ElementCandidate → VerificationPredicate
predicate_for_candidate x =
    let selector : SelectorBundle = record {
      selectors =
          record {
            kind = SelectorType.aria;
            role = some (or_text x.role (codes "button"));
            value = or_text x.accessible_name (or_text x.visible_text x.candidate_id);
          }
          ∷ [];
    } in
    if is_one_of (codes "checkbox" ∷ codes "radio" ∷ codes "switch" ∷ []) x.role
      || is_one_of (codes "checkbox" ∷ codes "radio" ∷ []) x.input_type
    then record {
      kind = VerificationType.aria_state_equals;
      value = codes "true";
      selector = some selector;
      state_name = some (codes "checked");
    }
    else elim (given x.href_redacted_path) [
      | some path ↦ record {
        kind = VerificationType.url_path_equals;
        value = path;
        selector = none;
        state_name = none;
      }
      | none ↦ record {
        kind = VerificationType.element_present;
        value = codes "target_present";
        selector = some selector;
        state_name = none;
      }
    ]

abbrev outcome_value : SkillOutcome → Text
outcome_value SkillOutcome.completed = codes "completed"
outcome_value SkillOutcome.prepared = codes "prepared"

module _ (o : Outside) (c : Config) where
  -- `CompletionService.completed`
  unfoldable pub completed : ℕ → M o Bool
  completed session_id = call (
      o.verify session_id (record {
        kind = VerificationType.safe_terminal_reached;
        value = c.terminal_predicate;
        selector = none;
        state_name = none;
      }))

  abbrev store_step : ℕ → SkillStep → ℕ → M o (Unit {0})
  store_step session_id step now = on_store (λ s. (record_step session_id step now s).1)

  -- `RouteRecorder.record_verified_step`
  unfoldable pub record_route :
      ℕ → ElementCandidate → Text → Option Text → VerificationPredicate → M o SkillStep
  unfolding verified_step record_step
  record_route session_id candidate instruction css_path verification = do
    fresh ← ask o.fresh
    step ← need (verified_step fresh candidate instruction css_path verification false none)
    now ← ask o.now
    store_step session_id step now
    ret step

  -- `_record_silent_action`, after its pause.
  unfoldable pub record_silent_action :
      SessionView → ElementCandidate → EventEnvelope → M o (Unit {0})
  unfolding predicate_for_candidate record_route completed complete
  record_silent_action session candidate event = do
    let predicate = predicate_for_candidate candidate
    verified ← call (o.verify session.id predicate)
    cond_m verified
        (do
          step ←
              record_route session.id candidate
                (codes "Choose "
                  ++ (or_text candidate.accessible_name
                        (or_text candidate.visible_text (codes "this control"))
                      ++ codes "."))
                event.payload.css_path predicate
          done)
        done
    finished ← completed session.id
    cond_m finished (complete o c session) done

  abbrev keep_skill : ℕ → SkillDocument → M o (Unit {0})
  keep_skill session_id skill d = (some tt, record d { skills = put session_id skill d.skills })

  -- What `_persist_repair` learns from the memory service: the routine, its identifier, whether it
  -- was kept, and the state of its indexing.
  abbrev saved_as : SkillDocument → Text → Option Receipt → SkillDocument × Text × Bool × Text
  saved_as repaired name none = (repaired, name, false, codes "unavailable")
  saved_as repaired name (some r) = (
    elim r.document [ none ↦ repaired | some s ↦ s ],
    elim r.skill_id [ none ↦ name | some t ↦ t ],
    true,
    elim r.indexing_status [ none ↦ codes "ready" | some t ↦ t ],
  )

  abbrev if_kept : Bool → Json → Json
  if_kept true j = j
  if_kept false j = null

  -- `_persist_repair` once the memory service has answered.
  unfoldable pub keep_repaired :
      SessionView
      → SkillStep
      → Text
      → SkillDocument
      → SkillDocument × Text × Bool × Text
      → M o SessionView
  unfolding update send
  keep_repaired session replacement reason source_skill (skill, skill_id, kept, indexing) = do
    keep_skill session.id skill
    updated ← update o session.id false (λ v. record v {
      skill_id = some skill_id;
      skill_revision = some skill.revision;
      sync_state = if kept then SyncState.synced else SyncState.failed;
    })
    now ← ask o.now
    let key = o.uuid_text skill.skill_key ++ (codes ":" ++ o.int_text skill.revision)
    send o c (codes "skill_revision") key (
        item "skill_revision_link_id" (text key)
        ∷ item "skill_key" (ident skill.skill_key)
        ∷ item "revision" (number skill.revision)
        ∷ item "everos_skill_id" (if_kept kept (text skill_id))
        ∷ item "source_session_id" (ident session.id)
        ∷ item "source_run_id" (ident session.id)
        ∷ item "source_step_id" (ident replacement.step_id)
        ∷ item "parent_revision" (number source_skill.revision)
        ∷ item "task_outcome" (text (outcome_value skill.task_outcome))
        ∷ item "repair_reason" (text reason)
        ∷ item "provider_status" (text (if kept then codes "written" else codes "repair_not_saved"))
        ∷ item "indexing_status" (text indexing)
        ∷ item "is_current" (flag kept)
        ∷ source o c
        ∷ item "written_at" (if_kept kept (instant now))
        ∷ item "retrieved_at" (if_kept kept (instant now))
        ∷ [])
    ret updated

  -- `_persist_repair`
  unfoldable pub persist_repair : SessionView → SkillStep → Text → M o SessionView
  unfolding load_skill skill_name revise_one_step keep_repaired
  persist_repair session replacement reason = do
    source_skill ← load_skill o c session
    repaired_at ← ask o.now
    created_at ← ask o.now
    repaired ← need (
        revise_one_step source_skill session.current_step_index replacement reason repaired_at
          created_at)
    name ← need (skill_name session.skill_id)
    receipt ←
        attempt
          (call (o.save_skill_revision session.user_id name repaired reason) >>= λ r. ret (some r))
          (ret none)
    keep_repaired session replacement reason source_skill (saved_as repaired name receipt)
