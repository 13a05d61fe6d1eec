-- ===== src/Live/Reminders/Once.antt =====
-- A reminder is announced once while it is active (backend/app/services/proactive.py).
use web_accessible.Prelude.{
  ◌==◌, nat_eq, contains, Text, text_eq, text_beq_iff, ◌≡◌, refl, ap, Bool, true, not, ◌&&◌, ◌||◌,
  List, [], ◌∷◌, arith, if◌then◌else◌, keep, count,
}
use web_accessible.Live.Reminders.{ids, announce, still_active, evaluate}

contains-keep :
    (p : Text → Bool) (x : Text) (xs : List Text) → contains (keep p xs) x ≡ (contains xs x && p x)
contains-keep p x [] = refl
contains-keep p x (y ∷ ys) =
    let here : (y == x ≡ true) → p y ≡ p x = λ t. ap p ((text_beq_iff y x).0 t) in
    ground (arith, here, contains-keep p x ys)

module _ {R : Type 0} (id : R → Text) where
  announce-contains :
      (x : Text) (rs : List R) (announced : List Text)
      → contains (announce id rs announced).0 x ≡ (contains (ids id rs) x || contains announced x)
  unfolding announce
  announce-contains x [] announced = refl
  announce-contains x (r ∷ rs) announced =
      let here : (id r == x ≡ true) → contains announced (id r) ≡ contains announced x =
        λ t. ap (contains announced) ((text_beq_iff (id r) x).0 t) in
      ground
        (arith, here, announce-contains x rs announced, announce-contains x rs (id r ∷ announced))

  abbrev pub is_named : Text → R → Bool
  is_named x r = id r == x

  announce-count :
      (x : Text) (rs : List R) (announced : List Text)
      → count (is_named x) (announce id rs announced).1
        ≡ (if contains (ids id rs) x && not (contains announced x) then 1 else 0)
  unfolding announce
  announce-count x [] announced = refl
  announce-count x (r ∷ rs) announced =
      let here : (id r == x ≡ true) → contains announced (id r) ≡ contains announced x =
        λ t. ap (contains announced) ((text_beq_iff (id r) x).0 t) in
      ground (arith, here, announce-count x rs announced, announce-count x rs (id r ∷ announced))

  -- An evaluation publishes a reminder once if it is active and has not been announced since it
  -- became so, and not otherwise; and what counts as announced afterwards is what is active.
  pub evaluate_once :
      (x : Text) (rs : List R) (announced : List Text)
      → (count (is_named x) (evaluate id rs announced).1
          ≡ (if contains (ids id rs) x && not (contains announced x) then 1 else 0))
        × (contains (evaluate id rs announced).0 x ≡ contains (ids id rs) x)
  unfolding evaluate
  evaluate_once x rs announced = (
    ground (
      arith,
      announce-count x rs (still_active id rs announced),
      contains-keep (contains (ids id rs)) x announced,
    ),
    ground (
      arith,
      announce-contains x rs (still_active id rs announced),
      contains-keep (contains (ids id rs)) x announced,
    ),
  )
