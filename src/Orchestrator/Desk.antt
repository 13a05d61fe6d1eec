-- ===== src/Orchestrator/Desk.antt =====
-- The state that the orchestrator's handlers work on (backend/app/services/orchestrator.py), what
-- they call outside it, and the monad of handlers: a raised exception, `none`, keeps what was
-- written before it. The handlers of one session hold its lock, so each runs as a whole.
pub mod Inversion
use web_accessible.Prelude.{
  nat_eq, Text, text_eq, Dict, ℕ, Bool, true, false, Option, none, some, List,
}
use web_accessible.Contracts.State.{GuidanceMode}
use web_accessible.Contracts.Json.{Payload}
use web_accessible.Contracts.Element.{ElementCandidate, VerificationPredicate, GuidanceDecision}
use web_accessible.Contracts.Command.{BackendCommand}
use web_accessible.Contracts.Skill.{SkillDocument}
use web_accessible.Stuck.{ObservationWindow, StuckReason}
use web_accessible.Store.Types.{SessionView, Store}

-- `ActiveStep`
pub record ActiveStep : Type 0 where
  pub command : BackendCommand
  pub candidate : ElementCandidate
  pub decision : Option GuidanceDecision
  pub mode : GuidanceMode

-- `GuidanceResult`
pub record GuidanceResult : Type 0 where
  pub command : BackendCommand
  pub decision : Option GuidanceDecision
  pub candidate : Option ElementCandidate
  pub blocked : Bool
  pub should_escalate : Bool
  pub unavailable_code : Option Text

-- The parts of `BrowserSessionView` that the orchestrator reads.
pub record BrowserView : Type 0 where
  pub browserbase_session_id : Text
  pub created_at : ℕ

pub data Started : Type 0 where
  started : BrowserView → Started
  blocked_site broken : Started

pub record PageIdentity : Type 0 where
  pub page_id : Text
  pub page_instance_id : ℕ
  pub origin : Text
  pub path : Text

-- What `get_skill` returns: a document; text whose front matter is a document, or is not; a mapping
-- that is a document, or is not; or something else.
pub data RawSkill : Type 0 where
  document : SkillDocument → RawSkill
  markdown mapping : Option SkillDocument → RawSkill
  other : RawSkill

-- What is read of a memory receipt: `skill_id` or `id`, `case_id`, `episode_id`, `indexing_status`.
pub record Receipt : Type 0 where
  pub skill_id : Option Text
  pub case_id : Option Text
  pub episode_id : Option Text
  pub indexing_status : Option Text
  pub document : Option SkillDocument

-- What the planner's adapter reports of a call; a count that is no natural number is `none`.
pub record Usage : Type 0 where
  pub input_tokens : Option ℕ
  pub output_tokens : Option ℕ
  pub estimated_input_tokens : Option ℕ
  pub model : Option Text
  pub model_version : Option Text
  pub provider : Option Text
  pub rate_card_version : Option Text
  pub query_id : Option Text

-- What is read of a calculated cost.
pub record ModelCost : Type 0 where
  pub cost_id : Text
  pub amount_usd : Text
  pub payload : Payload

-- The browser, the memory service, the planner and the clock, on a world that is passed along. `none`
-- is a raised exception. The texts of numbers, the hashes and the time zones are functions.
pub record Outside : Type 1 where
  pub World : Type 0
  pub now : World → ℕ × World
  pub fresh : World → ℕ × World
  pub start : ℕ → Text → Text → World → Started × World
  pub stop : ℕ → Text → World → Option Bool × World
  pub page_identity : ℕ → World → Option PageIdentity × World
  pub snapshot : ℕ → World → Option (List ElementCandidate) × World
  pub highlight : ℕ → Text → World → Option Bool × World
  pub clear_highlight : ℕ → World → Option (Unit {0}) × World
  pub verify : ℕ → VerificationPredicate → World → Option Bool × World
  pub ask_model :
      Text
      → List ElementCandidate
      → GuidanceMode
      → World
      → Option (GuidanceDecision × Usage) × World
  pub triage : Text → World → Option (Option (Text × Text)) × World
  pub cost : ℕ → SessionView → Usage → ℕ → World → Option ModelCost × World
  pub get_skill : Text → Text → World → Option RawSkill × World
  pub save_teach_run : Text → ℕ → SkillDocument → ℕ → World → Option Receipt × World
  pub save_skill_revision : Text → Text → SkillDocument → Text → World → Option Receipt × World
  pub save_activity : Text → ℕ → World → Option (Unit {0}) × World
  pub uuid_text : ℕ → Text
  pub int_text : ℕ → Text
  pub local_time : Text → ℕ → ℕ × ℕ
  pub task_digest : Text → Text
  pub text_hash : Text → Text
  pub payload_hash : Payload → Text
  pub predicate_json : VerificationPredicate → Text

-- `asyncio.create_task`: what is left to run.
pub data Task : Type 0 where
  guide : ℕ → Text → Task
  resume : ℕ → Task
  stop : ℕ → Text → Task

-- A payload of `_publish`, without its rendering.
pub record Notice : Type 0 where
  pub session : SessionView
  pub command : Option BackendCommand
  pub stuck_reason : Option StuckReason

-- The parameters of the orchestrator.
pub record Config : Type 0 where
  pub demo_target_url : Text
  pub demo_fallback_url : Text
  pub terminal_predicate : Text
  pub model_name : Text
  pub rate_card_version : Text
  pub build_commit : Text
  pub source_environment : Text

pub record Desk (o : Outside) : Type 0 where
  pub store : Store
  pub active : Dict ℕ ActiveStep
  pub skills : Dict ℕ SkillDocument
  pub commands : Dict ℕ BackendCommand
  pub pending_selector_attempts : Dict ℕ Text
  pub windows : Dict ℕ ObservationWindow
  pub tasks : List Task
  pub notices : List Notice
  pub outside : o.World

module _ (o : Outside) where
  -- A handler.
  abbrev pub M : Type 0 → Type 0
  M A = Desk o → Option A × Desk o

module _ {o : Outside} where
  abbrev pub and_then : {A B : Type 0} → Option A × Desk o → (A → M o B) → Option B × Desk o
  and_then (none, d) f = (none, d)
  and_then (some a, d) f = f a d

  infixl 5 ◌>>=◌ ◌>>◌
  abbrev pub ◌>>=◌ : {A B : Type 0} → M o A → (A → M o B) → M o B
  ◌>>=◌ m f d = and_then (m d) f

  abbrev pub ◌>>◌ : {B : Type 0} → M o (Unit {0}) → M o B → M o B
  ◌>>◌ m n = m >>= λ u. n

  abbrev pub ret : {A : Type 0} → A → M o A
  ret a d = (some a, d)

  abbrev pub done : M o (Unit {0})
  done = ret tt

  abbrev pub raise : {A : Type 0} → M o A
  raise d = (none, d)

  -- A value that is there, or the exception.
  abbrev pub need : {A : Type 0} → Option A → M o A
  need none = raise
  need (some a) = ret a

  -- `try: … except Exception:`
  abbrev pub otherwise : {A : Type 0} → Option A × Desk o → M o A → Option A × Desk o
  otherwise (some a, d) handler = (some a, d)
  otherwise (none, d) handler = handler d

  abbrev pub attempt : {A : Type 0} → M o A → M o A → M o A
  attempt m handler d = otherwise (m d) handler

  abbrev pub cond_m : {A : Type 0} → Bool → M o A → M o A → M o A
  cond_m true m n = m
  cond_m false m n = n

  -- A change of the desk that leaves the sessions alone, or reads it.
  abbrev pub reads : {A : Type 0} → (Desk o → A) → M o A
  reads f d = (some (f d), d)

  abbrev pub on_store : (Store → Store) → M o (Unit {0})
  on_store f d = (some tt, record d { store = f d.store })

  abbrev lifted : {A : Type 0} → Desk o → Option A × o.World → Option A × Desk o
  lifted d (r, w) = (r, record d { outside = w })

  -- A call outside that may raise.
  abbrev pub call : {A : Type 0} → (o.World → Option A × o.World) → M o A
  call f d = lifted d (f d.outside)

  abbrev answered : {A : Type 0} → Desk o → A × o.World → Option A × Desk o
  answered d (r, w) = (some r, record d { outside = w })

  -- A call outside that does not.
  abbrev pub ask : {A : Type 0} → (o.World → A × o.World) → M o A
  ask f d = answered d (f d.outside)
