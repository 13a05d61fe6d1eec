-- ===== src/Orchestrator/Walk/Actions.antt =====
-- What a participant's action does keeps the table of sessions lawful
-- (backend/app/services/orchestrator.py).
use web_accessible.Prelude.{nat_eq, Text, text_eq, Dict, lookup, ℕ, ◌≡◌, refl, Option, none, some}
use web_accessible.Contracts.State.{mode_eq, state_eq}
use web_accessible.Contracts.Event.{EventEnvelope, event_type_eq}
use web_accessible.Contracts.Element.{ElementCandidate, VerificationPredicate}
use web_accessible.Store.Types.{SessionView, SessionRow}
use web_accessible.Orchestrator.Desk.{Outside, Desk, Config, ActiveStep, ◌>>=◌, done, reads}
use web_accessible.Orchestrator.Moves.{spawn}
use web_accessible.Orchestrator.Action.{record_silent_action, completed}
use web_accessible.Orchestrator.Confirm.{
  reroute, not_verified, advance, after_verified, confirm, check, is_watched, on_active,
  on_candidate, on_payload, handle_user_action,
}
use web_accessible.Orchestrator.Walk.Rules.{table}
use web_accessible.Orchestrator.Walk.Silent.{selector_verification-silent}
use web_accessible.Orchestrator.Walk.Steps.{
  raise-Finishing, Finishing, silent-Lawful, then-Lawful, cond-Finishing, then-Finishing,
  rest-Finishing, keeping_rules, ending_rules,
}
use web_accessible.Orchestrator.Walk.Endings.{
  moves, escalate-Giving, complete-Finishing, finish_replay-Finishing, load_skill-Keeping,
  keep_step-Giving,
}

module _ (o : Outside) (c : Config) (start : Dict ℕ SessionRow) where
  reroute-Finishing : (v : SessionView) (t : Text) → Finishing start v (reroute o c v t)
  unfolding reroute
  reroute-Finishing v t = search (ending_rules, moves) depth 8

  not_verified-Finishing : (v : SessionView) → Finishing start v (not_verified o c v)
  unfolding not_verified spawn
  not_verified-Finishing v =
      search
        (escalate-Giving, reroute-Finishing, rest-Finishing, silent-Lawful, ending_rules, moves)
        depth 10

  advance-Finishing : (v : SessionView) → Finishing start v (advance o c v)
  unfolding advance
  advance-Finishing v = search (ending_rules, moves) depth 8

  after_verified-Finishing : (v : SessionView) → Finishing start v (after_verified o c v)
  unfolding after_verified
  after_verified-Finishing v =
      search
        (
          load_skill-Keeping, finish_replay-Finishing, complete-Finishing, advance-Finishing,
          ending_rules, moves,
        )
        depth 8

  check-silent :
      (i : ℕ) (p : Option VerificationPredicate) (d : Desk o)
      → table (check o c i p d) ≡ d.store.sessions
  check-silent i none d = refl
  check-silent i (some p) d = refl

  confirm-Finishing :
      (v : SessionView) (a : ActiveStep) (x : ElementCandidate) (e : EventEnvelope)
      → Finishing start v (confirm o c v a x e)
  unfolding confirm
  confirm-Finishing v a x e =
      search
        (
          keep_step-Giving, after_verified-Finishing, not_verified-Finishing, check-silent,
          selector_verification-silent, ending_rules, moves,
        )
        depth 12

  on_active-Finishing :
      (v : SessionView) (a : ActiveStep) (x : ElementCandidate) (e : EventEnvelope)
      → Finishing start v (on_active o c v a x e)
  unfolding on_active spawn
  on_active-Finishing v a x e =
      search
        (
          confirm-Finishing, reroute-Finishing, rest-Finishing, then-Lawful, silent-Lawful,
          selector_verification-silent, ending_rules, moves,
        )
        depth 12

  record_silent_action-Finishing :
      (v : SessionView) (x : ElementCandidate) (e : EventEnvelope)
      → Finishing start v (record_silent_action o c v x e)
  unfolding record_silent_action completed
  record_silent_action-Finishing v x e = search (complete-Finishing, ending_rules, moves) depth 12

  active-Finishing :
      (v : SessionView) (a : Option ActiveStep) (x : ElementCandidate) (e : EventEnvelope)
      → Finishing {o = o} start v (elim a [ none ↦ done | some s ↦ on_active o c v s x e ])
  active-Finishing v none x e = search (ending_rules)
  active-Finishing v (some s) x e = on_active-Finishing v s x e

  on_candidate-Finishing :
      (v : SessionView) (x : ElementCandidate) (e : EventEnvelope)
      → Finishing start v (on_candidate o c v x e)
  on_candidate-Finishing v x e =
      cond-Finishing (is_watched o c v) (record_silent_action o c v x e)
        (reads (λ d. lookup v.id d.active) >>= λ a. elim a [
          | none ↦ done
          | some s ↦ on_active o c v s x e
        ])
        (record_silent_action-Finishing v x e)
        (then-Finishing (reads (λ d. lookup v.id d.active))
          (λ a. elim a [ none ↦ done | some s ↦ on_active o c v s x e ]) (search (keeping_rules))
          λ a. active-Finishing v a x e)

  acted-Finishing :
      (v : SessionView) (e : EventEnvelope) (x : Option (Option ElementCandidate))
      → Finishing start v (on_payload o c v e x)
  acted-Finishing v e none = search (ending_rules)
  acted-Finishing v e (some none) = search (raise-Finishing)
  acted-Finishing v e (some (some x)) = on_candidate-Finishing v x e

  pub handle_user_action-Finishing :
      (v : SessionView) (e : EventEnvelope) → Finishing start v (handle_user_action o c v e)
  unfolding handle_user_action
  handle_user_action-Finishing v e = acted-Finishing v e e.payload.candidate
