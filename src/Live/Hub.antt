-- ===== src/Live/Hub.antt =====
-- The hub of live notices (backend/app/services/event_hub.py): a bounded queue for each subscriber of
-- a topic. A topic's set of queues is kept by the identity of a queue. The event loop runs each
-- operation as a whole.
pub mod Backlog
use web_accessible.Prelude.{
  Comparable, ◌==◌, nat_eq, eq_of_discrete, contains, dec_beq_iff, Text, codes, text_eq, is_space,
  is_nonempty, text_beq_iff, text_beq_refl, lower_idem, text_beq, lower_char, lower, lstrip, strip,
  is_blank, starts_with, occurs_in, Dict, lookup-put, lookup-remove, lookup-set_default, dict_laws,
  lookup, put, remove, set_default, ℕ, zero, suc, ◌+◌, ◌-◌, ◌*◌, ◌/◌, ◌%◌, ◌≤◌, ◌<◌, ◌≡◌, refl, sym,
  ap, ◌∙◌, ◌≢◌, ◌↔◌, ◌⊎◌, inl, inr, Bool, true, false, not, ◌&&◌, ◌||◌, Option, none, some, List,
  [], ◌∷◌, ◌++◌, map, reverse, arith, ltb, leb, nat_beq, if◌then◌else◌, ltb→lt, lt→ltb, leb→le,
  le→leb, nat_beq_iff, Bool-cases, Option-cases, length, get_elem?, set, take, drop, keep, count,
  any, all, All, length-append, length-set, length-keep, count-le-length, pos_part, neg_part, sub_ℕ,
  leb_ℤ, ltb_ℤ, sub_ℕ-le_iff, sub_ℕ-lt_iff, ℤ, pos, negsuc,
}

-- `asyncio.Queue(maxsize=20)`
abbrev pub capacity : ℕ
capacity = 20

-- `user_topic`
abbrev pub user_topic : Text → Text
user_topic user_id = codes "user:" ++ user_id

module _ (E : Type 0) where
  -- `SessionEventHub._subscribers`
  abbrev pub Hub : Type 0
  Hub = Dict Text (Dict ℕ (List E))

module _ {E : Type 0} where
  -- `put_nowait`, and where the queue is full, `get_nowait` before it.
  unfoldable pub offer : E → List E → List E
  offer event queue =
      if ltb (length queue) capacity then queue ++ event ∷ [] else drop 1 queue ++ event ∷ []

  abbrev pub offer_all : E → Dict ℕ (List E) → Dict ℕ (List E)
  offer_all event queues = map (λ x. (x.0, offer event x.1)) queues

  -- `self._subscribers.get(topic, set())`
  abbrev pub queues_of : Text → Hub E → Dict ℕ (List E)
  queues_of topic hub = elim (lookup topic hub) [ none ↦ [] | some queues ↦ queues ]

  -- `publish`
  unfoldable pub publish : Text → E → Hub E → Hub E
  unfolding lookup put offer
  publish topic event hub = elim (lookup topic hub) [
    | none ↦ hub
    | some queues ↦ put topic (offer_all event queues) hub
  ]

  -- `publish`, one event after another.
  abbrev pub publish_all : Text → List E → Hub E → Hub E
  publish_all topic [] hub = hub
  publish_all topic (event ∷ events) hub = publish_all topic events (publish topic event hub)

  -- `subscriber_count`
  unfoldable pub subscriber_count : Text → Hub E → ℕ
  unfolding lookup
  subscriber_count topic hub = length (queues_of topic hub)

  -- `subscribe` until it waits; `fresh` is the new queue.
  unfoldable pub subscribe : Text → ℕ → Hub E → Hub E
  unfolding lookup put
  subscribe topic fresh hub = put topic (put fresh [] (queues_of topic hub)) hub

  abbrev after_leaving : Text → Dict ℕ (List E) → Hub E → Hub E
  after_leaving topic [] hub = remove topic hub
  after_leaving topic (q ∷ queues) hub = put topic (q ∷ queues) hub

  -- The `finally` of `subscribe`.
  unfoldable pub unsubscribe : Text → ℕ → Hub E → Hub E
  unfolding lookup put remove
  unsubscribe topic queue hub = after_leaving topic (remove queue (queues_of topic hub)) hub

  abbrev received : Text → ℕ → Option (List E) → Hub E → Option E × Hub E
  received topic queue (some (event ∷ rest)) hub =
      (some event, put topic (put queue rest (queues_of topic hub)) hub)
  received topic queue _ hub = (none, hub)

  -- A turn of the loop of `subscribe`: the event that is yielded, or `none`, a keepalive.
  unfoldable pub receive : Text → ℕ → Hub E → Option E × Hub E
  unfolding lookup put
  receive topic queue hub = received topic queue (lookup queue (queues_of topic hub)) hub
