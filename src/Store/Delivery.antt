-- ===== src/Store/Delivery.antt =====
-- What the outbox still has to deliver (backend/app/persistence/repository.py).
use web_accessible.Prelude.{
  ◌==◌, nat_eq, Text, text_eq, ℕ, zero, suc, ◌+◌, ◌≤◌, ◌≡◌, refl, ap, ◌∙◌, Bool, true, false, ◌||◌,
  Option, List, [], ◌∷◌, map, arith, length, take, keep, any, length-keep,
}
use web_accessible.Store.Table.{place, order_by}
use web_accessible.Store.Types.{OutboxRow, Store}
use web_accessible.Store.Outbox.{is_due, marked_row, mark_outbox, pending_outbox}

module _ {ℓ} {A : Type ℓ} where
  any-take : (p : A → Bool) (n : ℕ) (xs : List A) → any p xs ≡ false → any p (take n xs) ≡ false
  any-take p zero xs h = refl
  any-take p (suc n) [] h = refl
  any-take p (suc n) (x ∷ xs) h = ground (arith, any-take p n xs)

  take_all : (n : ℕ) (xs : List A) → length xs ≤ n → take n xs ≡ xs
  take_all zero [] h = refl
  take_all zero (x ∷ xs) h = absurd (omega arith)
  take_all (suc n) [] h = refl
  take_all (suc n) (x ∷ xs) h = cc (take_all n xs (omega arith))

  length-place : (key : A → ℕ) (x : A) (xs : List A) → length (place key x xs) ≡ length xs + 1
  unfolding place
  length-place key x [] = refl
  length-place key x (y ∷ ys) = ground (arith, length-place key x ys)

  length-order_by : (key : A → ℕ) (xs : List A) → length (order_by key xs) ≡ length xs
  unfolding order_by
  length-order_by key [] = refl
  length-order_by key (x ∷ xs) =
      omega (arith, length-place key x (order_by key xs), length-order_by key xs)

  any-place :
      (p : A → Bool) (key : A → ℕ) (x : A) (xs : List A) → any p (place key x xs) ≡ p x || any p xs
  unfolding place
  any-place p key x [] = refl
  any-place p key x (y ∷ ys) = ground (arith, any-place p key x ys)

  any-order_by : (p : A → Bool) (key : A → ℕ) (xs : List A) → any p (order_by key xs) ≡ any p xs
  unfolding order_by
  any-order_by p key [] = refl
  any-order_by p key (x ∷ xs) =
      ground (arith, any-place p key x (order_by key xs), any-order_by p key xs)

length-map {ℓ κ} :
    {A : Type ℓ} {B : Type κ} (f : A → B) (xs : List A) → length (map f xs) ≡ length xs
length-map f [] = refl
length-map f (x ∷ xs) = ap suc (length-map f xs)

abbrev pub is_item : ℕ → OutboxRow → Bool
is_item item r = r.id == item

synced_not_due :
    (item now : ℕ) (err : Option Text) (rs : List OutboxRow)
    → any (is_item item) (keep is_due (map (marked_row item true err now) rs)) ≡ false
synced_not_due item now err [] = refl
synced_not_due item now err (r ∷ rs) = ground (arith, synced_not_due item now err rs)

failed_due :
    (item now : ℕ) (err : Option Text) (rs : List OutboxRow)
    → any (is_item item) (keep is_due (map (marked_row item false err now) rs))
      ≡ any (is_item item) rs
failed_due item now err [] = refl
failed_due item now err (r ∷ rs) = ground (arith, failed_due item now err rs)

-- An item that is marked as synced is not listed as pending, however many items are asked for; and an
-- item that is marked as failed is listed exactly if the outbox holds it, where the limit admits all
-- rows.
pub mark_outbox-pending :
    (item now limit : ℕ) (err : Option Text) (s : Store)
    → length s.outbox ≤ limit
    → ((n : ℕ) → any (is_item item) (pending_outbox n (mark_outbox item true err now s)) ≡ false)
      × (any (is_item item) (pending_outbox limit (mark_outbox item false err now s))
          ≡ any (is_item item) s.outbox)
unfolding pending_outbox mark_outbox
mark_outbox-pending item now limit err s room =
    let key = λ (r : OutboxRow). r.created_at in
    let synced = keep is_due (map (marked_row item true err now) s.outbox) in
    let rows = map (marked_row item false err now) s.outbox in
    let due = keep is_due rows in
    (
      λ n.
          any-take (is_item item) n (order_by key synced)
            (any-order_by (is_item item) key synced ∙ synced_not_due item now err s.outbox),
      rw
          (take_all limit (order_by key due) (
            omega (
              arith,
              length-order_by key due,
              length-keep is_due rows,
              length-map (marked_row item false err now) s.outbox,
            )))
          (any-order_by (is_item item) key due ∙ failed_due item now err s.outbox),
    )
