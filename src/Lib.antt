-- ===== src/Lib.antt =====
-- The core of the WebAccessible backend (backend/app): a service that guides a participant through
-- a web task, one step at a time, on a remote browser. The modelled parts are the ones that decide:
-- the life cycle of a session, the safety policy, the detector of a stuck participant, the
-- recording, replay and repair of routines, the price of a model call, and the reconciliation of
-- provider browser sessions with the operational store.
--
-- The orchestrator (backend/app/services/orchestrator.py) ties these parts together. It moves a
-- session by `ensure_transition`, asks the safety policy about a planned step before the step is
-- shown, feeds every browser event to the detector, and tries a saved routine before it asks a
-- model. The reconciliation service runs beside it, in a worker: it lists the live sessions of the
-- provider, judges each against the operational store, releases the orphans, and reports.
--
-- Contracts (Contracts/State, Contracts/Element, Contracts/Event, Contracts/Skill): the types of
-- backend/app/contracts/models.py, with the constructors of its enumerations and the fields that
-- the modelled code reads.
-- Session, Session/Reach: backend/app/domain/sessions.py. `ensure_transition` is the function of
-- that name, a refusal is `none`; a reachable state is one that a sequence of accepted transitions
-- leads to.
-- Safety, Safety/Verdict, Safety/Scam: backend/app/domain/safety.py. `evaluate` is
-- `SafetyPolicy.evaluate`. Safety/Scam: `triage` of backend/app/services/scam_shield.py, with
-- `_category`; the classifier and the JSON parser are its arguments.
-- Reconcile (Types, Classify, Report, Release): backend/app/services/browser_reconciliation.py and
-- the types it takes from backend/app/integrations/browserbase/client.py. `classify`,
-- `terminate_session`, `release`, `list_live` and `reconcile` are the methods `_classify`,
-- `_terminate`, `_release`, `_list_live_sessions` and `reconcile`. Judgement, Soundness, Budget and
-- Totals hold what is proved of them.
-- Stuck, with Recency and Idle: backend/app/services/stuck_detector.py. `observe` is
-- `StuckDetector.observe`, cut into one function for each of its `if` statements.
-- Skill/Replay, Skill/Repair, Skill/Recorder: backend/app/services/replay.py, repair.py and
-- route_recorder.py.
-- Cost, Cost/Rates: `CostCalculator.calculate_from_rates` of
-- backend/app/services/cost_calculator.py.
-- Store (Table, Types, Sessions, Ledger, Browsers, Notices, Outbox, Activity):
-- backend/app/persistence/repository.py, one function for each method, on a record of tables; the
-- schema's keys and the order of a query are in Table. Columns, Steps, Once and Delivery hold what
-- is proved of it.
-- Orchestrator: the handlers of backend/app/services/orchestrator.py on the record `Desk` of the
-- store, the orchestrator's own dicts, the tasks that it leaves to run and the notices that it
-- publishes. Desk has the monad of handlers, in which a raised exception keeps what was written
-- before it. Moves has `_transition` and the reads and writes of a session; Memory the recording
-- half of activity_memory.py; Telemetry the outbox payloads; Planner and Decide the service of
-- guidance.py; Guide, Begin, Outcome, Action and Confirm the parts of a round; Handlers, Events and
-- Requests the entry points. Delivery, Dismissal and Planner/Presented hold what is proved of them.
-- Walk follows the sessions through all of them: Rules and Silent have the handlers that leave the
-- table of sessions alone, Current and Writes what a write does to it, Steps, Answers and Pairs how
-- a handler is read step by step, Endings, Rounds, Actions and Calls the handlers in the order in
-- which they call each other, and Trace a run of any calls.
-- Reconcile/Worker: backend/app/workers/browser_reconciliation_worker.py. `run` is the loop of that
-- name on fuel: each turn takes one unit. Bounded shows how much is enough, Calls what a run asks
-- of the provider.
-- Live/Hub and Live/Reminders: backend/app/services/event_hub.py and proactive.py. `publish`,
-- `subscribe`, `receive` and `unsubscribe` are the hub's operations on its dict of queues; `scan`
-- is `_evaluate`, which publishes to the hub. Backlog, Once and Arrival hold what is proved of
-- them.
-- Telemetry: backend/app/services/telemetry.py, on the store's outbox. `flush`, `sync_item`,
-- `record_failure` and `run_turn` are `flush`, `_sync_item`, `_record_failure` and a turn of
-- `_run`. Delay, Account, Left, Drained and Delivered hold what is proved of them.
-- Access: `create` and `verify` of backend/app/services/auth.py; Tokens has what a token proves.
-- Browser/Sanitizer and Browser/Verifier: backend/app/browser/sanitizer.py, verifier.py and
-- selector_resolver.py. `redact_payload`, `origin_and_path`, `verify_predicate` and `locator_for`
-- are the functions of these names; Sanitizer/Clean has what a redacted payload may hold.
-- Url and Uuid: the part of `urlsplit` and of `uuid.UUID` that the code above uses.
-- Prelude: numbers, lists, texts, association lists and their lemmas.
-- Tests: concrete runs.
--
-- A text is a list of code points. Lower case, case folding, stripping and blankness act on ASCII
-- letters and white space. An instant or a duration is a count of microseconds on ℕ; a difference
-- of two instants is an integer. A dict is an association list in the order of insertion. An
-- identifier that the code only compares is a number. A record that the code changes in place is
-- returned anew, and an object that several methods share is passed along. An exception is a
-- constructor of the result: `none`, or an error value. The bounds that the contracts validate are
-- checked where the modelled code builds a selector, a step, a record of a repair or a routine,
-- except for what `HttpUrl` makes of an address; elsewhere a value of a contract is one that was
-- validated. The candidate of an event is absent, a dict that is no element, or an element. A scan
-- for reminders has one reading of the clock for the reminders that it publishes, and of a
-- planner's answer that does not validate the usage is not kept.
--
-- What is not under the repository is a parameter. `Reconcile.Release.Backend` has the two
-- protocols of the reconciliation service and its clock, as functions on a world that is passed
-- along. `Orchestrator.Desk.Outside` has the browser, the memory service, the planner's adapter,
-- the classifier of risky requests, the query of prices, the clock and the fresh identifiers, on a
-- world that is passed along, where each call answers or raises; the lock of a session is not
-- modelled, a handler runs as a whole. Its browser stands for backend/app/browser and its
-- classifier for scam_shield.py. `Reconcile.Worker.Runtime` has the event loop's clock, its timed
-- wait, the stop request and the sink of reports. `Telemetry.Warehouse` has the warehouse and the
-- clocks of the drain, and `Access.Serializer` the signing library, and `Browser.Verifier.Page` a
-- page of the browser. `Cost.Decimal` has the decimal numbers that a price is computed with.
--
-- The loops are structural recursions on the list that the source iterates over, except for the
-- worker's, which runs on fuel: a valid schedule never exhausts as many turns as its limit of
-- cycles, or two more than the intervals in its limit of time.
--
-- Not modelled: the store's migration and `task_history`, the orchestrator's lists of routines,
-- reminders and episodes, the inference of patterns, the HTTP routes, the part of the browser
-- bridge that drives a browser, the autopilot and recall services, the tasks in which the drain and
-- the scan for reminders run in the background, the integrations with the model, memory, warehouse
-- and browser providers, and the command-line tools, as well as the SQLite queries and the
-- redaction of texts in the reconciliation file. The web client (web) and the warehouse scripts
-- (snowflake) are in other languages.
mod Prelude
mod Url
mod Uuid
pub mod Contracts
pub mod Session
pub mod Safety
pub mod Reconcile
pub mod Stuck
pub mod Skill
pub mod Cost
pub mod Store
pub mod Orchestrator
pub mod Live
pub mod Telemetry
pub mod Access
pub mod Browser
pub mod Tests
