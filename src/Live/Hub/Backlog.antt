-- ===== src/Live/Hub/Backlog.antt =====
-- What a subscriber of the hub that reads nothing holds (backend/app/services/event_hub.py).
use web_accessible.Prelude.{
  ◌==◌, nat_eq, Text, text_eq, text_beq_iff, text_beq_refl, Dict, lookup-put, lookup, put, ℕ, suc,
  ◌-◌, ◌≤◌, ◌≡◌, refl, sym, ap, ◌∙◌, ◌≢◌, inl, inr, false, Option, none, some, List, [], ◌∷◌, ◌++◌,
  arith, ltb, if◌then◌else◌, Bool-cases, Option-cases, length, drop, length-append,
}
use web_accessible.Live.Hub.{publish_all, Hub, capacity, offer, offer_all, queues_of, publish}

module _ {E : Type 0} where
  -- The last events of a list that a queue has room for.
  abbrev pub latest : List E → List E
  latest events = drop (length events - capacity) events

  latest-few : (xs : List E) → length xs ≤ capacity → latest xs ≡ xs
  latest-few xs h = let z : length xs - capacity ≡ 0 = omega (arith, h) in rw z refl

  latest-many : (x : E) (xs : List E) → capacity ≤ length xs → latest (x ∷ xs) ≡ latest xs
  latest-many x xs h =
      let z : suc (length xs) - capacity ≡ suc (length xs - capacity) = omega (arith, h) in
      rw z refl

  append_assoc : (xs ys zs : List E) → (xs ++ ys) ++ zs ≡ xs ++ (ys ++ zs)
  append_assoc [] ys zs = refl
  append_assoc (x ∷ xs) ys zs = ap (λ r. x ∷ r) (append_assoc xs ys zs)

  append_nil : (xs : List E) → xs ++ [] ≡ xs
  append_nil [] = refl
  append_nil (x ∷ xs) = ap (λ r. x ∷ r) (append_nil xs)

  -- Offering one event after another.
  abbrev pub offers : List E → List E → List E
  offers [] queue = queue
  offers (x ∷ xs) queue = offers xs (offer x queue)

  length-offer :
      (x : E) (queue : List E) → length queue ≤ capacity → length (offer x queue) ≤ capacity
  unfolding offer
  length-offer x [] h = omega arith
  length-offer x (y ∷ queue) h =
      ground (arith, h, length-append (y ∷ queue) (x ∷ []), length-append queue (x ∷ []))

  -- An offer to a full queue loses the oldest event, which is none of the latest.
  latest-offer :
      (x : E) (xs queue : List E)
      → length queue ≤ capacity
      → latest (offer x queue ++ xs) ≡ latest (queue ++ x ∷ xs)
  unfolding offer
  latest-offer x xs [] h = refl
  latest-offer x xs (y ∷ queue) h = elim (Bool-cases (ltb (suc (length queue)) capacity)) [
    | inl room ↦ rw room (ap latest (append_assoc (y ∷ queue) (x ∷ []) xs))
    | inr full ↦ rw full (
        ap latest (append_assoc queue (x ∷ []) xs)
        ∙ sym
            (latest-many y (queue ++ x ∷ xs) (ground (arith, full, length-append queue (x ∷ xs)))))
  ]

  offers-latest :
      (xs queue : List E) → length queue ≤ capacity → offers xs queue ≡ latest (queue ++ xs)
  offers-latest [] queue h = rw (append_nil queue) (sym (latest-few queue h))
  offers-latest (x ∷ xs) queue h =
      offers-latest xs (offer x queue) (length-offer x queue h) ∙ latest-offer x xs queue h

  lookup-offer_all :
      (event : E) (i : ℕ) (queues : Dict ℕ (List E)) (q : List E)
      → lookup i queues ≡ some q
      → lookup i (offer_all event queues) ≡ some (offer event q)
  unfolding lookup
  lookup-offer_all event i [] q h = absurd cc
  lookup-offer_all event i ((j, p) ∷ queues) q h = elim (Bool-cases (j == i)) [
    | inl t ↦ rw t (
        ap (λ (z : Option (List E)). elim z [ none ↦ none | some y ↦ some (offer event y) ])
          (rw t at h))
    | inr f ↦ rw f (lookup-offer_all event i queues q (rw f at h))
  ]

  queues_of-put :
      (topic other : Text) (queues : Dict ℕ (List E)) (hub : Hub E)
      → queues_of other (put topic queues hub)
        ≡ (if topic == other then queues else queues_of other hub)
  queues_of-put topic other queues hub = elim (Bool-cases (topic == other)) [
    | inl t ↦ rw (queues_of, lookup-put topic other queues hub, t) refl
    | inr f ↦ rw (queues_of, lookup-put topic other queues hub, f) refl
  ]

  queues_of-publish :
      (topic other : Text) (x : E) (hub : Hub E)
      → queues_of other (publish topic x hub)
        ≡ (if topic == other then offer_all x (queues_of other hub) else queues_of other hub)
  unfolding publish
  queues_of-publish topic other x hub = elim (Option-cases (lookup topic hub)) [
    | inl absent ↦ elim (Bool-cases (topic == other)) [
      | inl t ↦
          let e : queues_of other hub ≡ [] =
            ap (λ z. queues_of z hub) (sym ((text_beq_iff topic other).0 t))
            ∙ rw (queues_of, absent) refl in
          rw (publish, absent, t) (rw e refl)
      | inr f ↦ rw (publish, absent, f) refl
    ]
    | inr (queues, there) ↦ elim (Bool-cases (topic == other)) [
      | inl t ↦
          let e : queues_of other hub ≡ queues =
            ap (λ z. queues_of z hub) (sym ((text_beq_iff topic other).0 t))
            ∙ rw (queues_of, there) refl in
          rw (publish, there, queues_of-put topic other (offer_all x queues) hub, t) (rw e refl)
      | inr f ↦ rw (publish, there, queues_of-put topic other (offer_all x queues) hub, f) refl
    ]
  ]

  publishes_offer :
      (topic : Text) (i : ℕ) (xs queue : List E) (hub : Hub E)
      → lookup i (queues_of topic hub) ≡ some queue
      → lookup i (queues_of topic (publish_all topic xs hub)) ≡ some (offers xs queue)
  publishes_offer topic i [] queue hub h = h
  publishes_offer topic i (x ∷ xs) queue hub h =
      publishes_offer topic i xs (offer x queue) (publish topic x hub) (
        rw (queues_of-publish topic topic x hub, text_beq_refl topic)
          (lookup-offer_all x i (queues_of topic hub) queue h))

  publishes_elsewhere :
      (topic other : Text) (xs : List E) (hub : Hub E)
      → topic ≢ other
      → queues_of other (publish_all topic xs hub) ≡ queues_of other hub
  publishes_elsewhere topic other [] hub n = refl
  publishes_elsewhere topic other (x ∷ xs) hub n =
      let f : topic == other ≡ false = elim (Bool-cases (topic == other)) [
        | inl t ↦ absurd (n ((text_beq_iff topic other).0 t))
        | inr f ↦ f
      ] in
      publishes_elsewhere topic other xs (publish topic x hub) n
      ∙ rw (queues_of-publish topic other x hub, f) refl

  -- Whatever is published to a topic, a subscriber that held no more than its queue has room for and
  -- reads nothing holds the latest twenty of what it held and what was published, in that order; and
  -- the subscribers of every other topic hold what they held.
  pub publishes-latest :
      (topic : Text) (i : ℕ) (xs queue : List E) (hub : Hub E)
      → lookup i (queues_of topic hub) ≡ some queue
      → length queue ≤ capacity
      → (lookup i (queues_of topic (publish_all topic xs hub)) ≡ some (latest (queue ++ xs)))
        × ((other : Text)
            → topic ≢ other
            → queues_of other (publish_all topic xs hub) ≡ queues_of other hub)
  publishes-latest topic i xs queue hub h room = (
    publishes_offer topic i xs queue hub h ∙ ap some (offers-latest xs queue room),
    λ other n. publishes_elsewhere topic other xs hub n,
  )
