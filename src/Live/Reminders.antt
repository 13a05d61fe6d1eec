-- ===== src/Live/Reminders.antt =====
-- Reminders that are pushed to an open app (backend/app/services/proactive.py). What the orchestrator
-- answers is an argument, `none` where it raises; of a reminder its identifier is read. The lock and
-- the event loop run each operation on the watchers as a whole.
pub mod Once
pub mod Arrival
use web_accessible.Prelude.{
  Comparable, ◌==◌, nat_eq, eq_of_discrete, contains, dec_beq_iff, Text, codes, text_eq, is_space,
  is_nonempty, text_beq_iff, text_beq_refl, lower_idem, text_beq, lower_char, lower, lstrip, strip,
  is_blank, starts_with, occurs_in, Dict, lookup-put, lookup-remove, lookup-set_default, dict_laws,
  lookup, put, remove, set_default, ℕ, zero, suc, ◌+◌, ◌-◌, ◌*◌, ◌/◌, ◌%◌, ◌≤◌, ◌<◌, ◌≡◌, refl, sym,
  ap, ◌∙◌, ◌≢◌, ◌↔◌, ◌⊎◌, inl, inr, Bool, true, false, not, ◌&&◌, ◌||◌, Option, none, some, List,
  [], ◌∷◌, ◌++◌, map, reverse, arith, ltb, leb, nat_beq, if◌then◌else◌, ltb→lt, lt→ltb, leb→le,
  le→leb, nat_beq_iff, Bool-cases, Option-cases, length, get_elem?, set, take, drop, keep, count,
  any, all, All, length-append, length-set, length-keep, count-le-length, pos_part, neg_part, sub_ℕ,
  leb_ℤ, ltb_ℤ, sub_ℕ-le_iff, sub_ℕ-lt_iff, ℤ, pos, negsuc,
}
use web_accessible.Live.Hub.{Hub, publish, publish_all, user_topic}

-- `_Watcher`; a count of subscriptions that would fall below one removes the watcher.
pub record Watcher : Type 0 where
  pub participant_session_id : ℕ
  pub announced : List Text
  pub subscriptions : ℕ

-- `_reminder_event`
pub record ReminderEvent (R : Type 0) : Type 0 where
  pub reminder : R
  pub published_at : ℕ

module _ {R : Type 0} (id : R → Text) where
  -- `{reminder.id for reminder in reminders}`
  abbrev pub ids : List R → List Text
  ids reminders = map id reminders

  -- The loop of `_evaluate`: what has been announced after it, and the reminders that it publishes.
  unfoldable pub announce : List R → List Text → List Text × List R
  announce [] announced = (announced, [])
  announce (r ∷ rs) announced =
      if contains announced (id r)
      then announce rs announced
      else (let rest = announce rs (id r ∷ announced) in (rest.0, r ∷ rest.1))

  -- `watcher.announced &= active`
  abbrev pub still_active : List R → List Text → List Text
  still_active reminders announced = keep (contains (ids reminders)) announced

  -- `_evaluate` on what the watcher has announced.
  unfoldable pub evaluate : List R → List Text → List Text × List R
  unfolding announce
  evaluate reminders announced = announce reminders (still_active reminders announced)

  abbrev new_watcher : ℕ → Option Watcher → Watcher
  new_watcher participant none = record {
    participant_session_id = participant;
    announced = [];
    subscriptions = 1;
  }
  new_watcher participant (some w) = record w {
    participant_session_id = participant;
    subscriptions = w.subscriptions + 1;
  }

  -- `_evaluate` of a participant who is watched: the orchestrator's answer, and the time.
  unfoldable pub scan :
      Text
      → Option (List R)
      → ℕ
      → Dict Text Watcher × Hub (ReminderEvent R)
      → Dict Text Watcher × Hub (ReminderEvent R)
  unfolding evaluate lookup put publish
  scan user none now (watchers, hub) = (watchers, hub)
  scan user (some reminders) now (watchers, hub) = elim (lookup user watchers) [
    | none ↦ (watchers, hub)
    | some w ↦
        let (announced, fresh) = evaluate reminders w.announced in
        (
          put user (record w { announced = announced }) watchers,
          publish_all (user_topic user)
              (map (λ r. record { reminder = r; published_at = now }) fresh) hub,
        )
  ]

  -- `attach`
  unfoldable pub attach :
      Text
      → ℕ
      → Option (List R)
      → ℕ
      → Dict Text Watcher × Hub (ReminderEvent R)
      → Dict Text Watcher × Hub (ReminderEvent R)
  unfolding lookup put scan
  attach user participant answer now (watchers, hub) =
      scan user answer now (put user (new_watcher participant (lookup user watchers)) watchers, hub)

-- `detach`
unfoldable pub detach : Text → Dict Text Watcher → Dict Text Watcher
unfolding lookup put remove
detach user watchers = elim (lookup user watchers) [
  | none ↦ watchers
  | some w ↦
      if leb w.subscriptions 1
      then remove user watchers
      else put user (record w { subscriptions = w.subscriptions - 1 }) watchers
]

-- `forget`
unfoldable pub forget : Text → Text → Dict Text Watcher → Dict Text Watcher
unfolding lookup put
forget user reminder_id watchers = elim (lookup user watchers) [
  | none ↦ watchers
  | some w ↦
      put user (record w { announced = keep (λ i. not (i == reminder_id)) w.announced }) watchers
]
