-- ===== src/Telemetry/Left.antt =====
-- Which rows of the outbox a flush selects, and which are left (backend/app/services/telemetry.py).
use web_accessible.Prelude.{
  nat_eq, contains, text_eq, Dict, ℕ, zero, suc, ◌-◌, ◌≤◌, ◌≡◌, refl, ap, inl, inr, Bool, true, not,
  ◌&&◌, none, List, [], ◌∷◌, ◌++◌, map, arith, leb, nat_beq_iff, Bool-cases, length, take, keep,
  count, All, count-le-length,
}
use web_accessible.Store.Types.{OutboxRow, Store}
use web_accessible.Store.Table.{order_by, place}
use web_accessible.Store.Outbox.{is_due, marked_row}
use web_accessible.Telemetry.{select}

-- Rows that are due and not among the items of a list.
abbrev pub is_left : List ℕ → OutboxRow → Bool
is_left done r = is_due r && not (contains done r.id)

abbrev pub ids : List OutboxRow → List ℕ
ids rows = map (λ (r : OutboxRow). r.id) rows

-- How many items wait.
abbrev pub backlog : Store → ℕ
backlog s = count is_due s.outbox

-- Marking an item as synced leaves those that wait beside it.
pub count-mark :
    (id now : ℕ) (done : List ℕ) (rows : List OutboxRow)
    → count (is_left done) (map (marked_row id true none now) rows)
      ≡ count (is_left (id ∷ done)) rows
count-mark id now done [] = refl
count-mark id now done (r ∷ rows) =
    let same = nat_beq_iff r.id id in
    let same' = nat_beq_iff id r.id in ground (arith, same, same', count-mark id now done rows)

pub count-keep :
    {A : Type 0} (p q : A → Bool) (xs : List A) → count (λ x. p x && q x) xs ≡ count q (keep p xs)
count-keep p q [] = refl
count-keep p q (x ∷ xs) = ground (arith, count-keep p q xs)

count-place :
    {A : Type 0} (q : A → Bool) (key : A → ℕ) (x : A) (xs : List A)
    → count q (place key x xs) ≡ count q (x ∷ xs)
unfolding place
count-place q key x [] = refl
count-place q key x (y ∷ ys) = ground (arith, count-place q key x ys)

pub count-order_by :
    {A : Type 0} (q : A → Bool) (key : A → ℕ) (xs : List A) → count q (order_by key xs) ≡ count q xs
unfolding order_by
count-order_by q key [] = refl
count-order_by q key (x ∷ xs) =
    omega (arith, count-place q key x (order_by key xs), count-order_by q key xs)

pub length-count : {A : Type 0} (xs : List A) → count (λ x. true) xs ≡ length xs
length-count [] = refl
length-count (x ∷ xs) = omega (arith, length-count xs)

pub length-keep-count : {A : Type 0} (p : A → Bool) (xs : List A) → length (keep p xs) ≡ count p xs
length-keep-count p [] = refl
length-keep-count p (x ∷ xs) = ground (arith, length-keep-count p xs)

pub keep-none : {A : Type 0} (p : A → Bool) (xs : List A) → count p xs ≡ 0 → keep p xs ≡ []
keep-none p [] h = refl
keep-none p (x ∷ xs) h = ground (arith, h, keep-none p xs)

pub count-left_nil : (rows : List OutboxRow) → count (is_left []) rows ≡ count is_due rows
count-left_nil [] = refl
count-left_nil (r ∷ rows) = ground (arith, count-left_nil rows)

-- The rows that are all among the items of a list.
abbrev pub AreDone : List ℕ → List OutboxRow → Type 0
AreDone done rows = All (λ (r : OutboxRow). contains done r.id ≡ true) rows

AreDone-weaken :
    (i : ℕ) (done : List ℕ) (rows : List OutboxRow) → AreDone done rows → AreDone (i ∷ done) rows
AreDone-weaken i done [] h = tt
AreDone-weaken i done (r ∷ rows) h = (ground (arith, h.0), AreDone-weaken i done rows h.1)

pub ids-AreDone : (rows : List OutboxRow) (done : List ℕ) → AreDone (ids rows ++ done) rows
ids-AreDone [] done = tt
ids-AreDone (r ∷ rows) done = (
  ground (arith, (nat_beq_iff r.id r.id).1 refl),
  AreDone-weaken r.id (ids rows ++ done) rows (ids-AreDone rows done),
)

-- What is left of a list of which the first rows are done.
pub count_rest :
    (b : ℕ) (rows : List OutboxRow) (done : List ℕ)
    → AreDone done (take b rows)
    → count (λ (r : OutboxRow). not (contains done r.id)) rows ≤ length rows - b
count_rest zero rows done h =
    omega (arith, count-le-length (λ (r : OutboxRow). not (contains done r.id)) rows)
count_rest (suc b) [] done h = omega arith
count_rest (suc b) (r ∷ rows) done h = rw h.0 (omega (arith, count_rest b rows done h.1))

pub take-take : {A : Type 0} (b s : ℕ) (xs : List A) → b ≤ s → take b (take s xs) ≡ take b xs
take-take zero s xs h = refl
take-take (suc b) zero xs h = absurd (omega (arith, h))
take-take (suc b) (suc s) [] h = refl
take-take (suc b) (suc s) (x ∷ xs) h = ap (λ r. x ∷ r) (take-take b s xs (omega (arith, h)))

pub select_forced :
    (now : ℕ) (retry_at : Dict ℕ ℕ) (room : ℕ) (rows : List OutboxRow)
    → select true now retry_at room rows ≡ (take room rows, 0)
unfolding select
select_forced now retry_at zero rows = refl
select_forced now retry_at (suc room) [] = refl
select_forced now retry_at (suc room) (r ∷ rows) =
    ap (λ z. (r ∷ z.0, z.1)) (select_forced now retry_at room rows)

module _ {A : Type 0} (P : A → Type 0) where
  pub All-keep : (p : A → Bool) (xs : List A) → All P xs → All P (keep p xs)
  All-keep p [] h = tt
  All-keep p (x ∷ xs) h = elim (Bool-cases (p x)) [
    | inl t ↦ rw t (h.0, All-keep p xs h.1)
    | inr f ↦ rw f (All-keep p xs h.1)
  ]

  All-place : (key : A → ℕ) (x : A) (xs : List A) → P x → All P xs → All P (place key x xs)
  unfolding place
  All-place key x [] k h = (k, tt)
  All-place key x (y ∷ ys) k h = elim (Bool-cases (leb (key x) (key y))) [
    | inl t ↦ rw t (k, h)
    | inr f ↦ rw f (h.0, All-place key x ys k h.1)
  ]

  pub All-order_by : (key : A → ℕ) (xs : List A) → All P xs → All P (order_by key xs)
  unfolding order_by
  All-order_by key [] h = tt
  All-order_by key (x ∷ xs) h = All-place key x (order_by key xs) h.0 (All-order_by key xs h.1)

  pub All-take : (n : ℕ) (xs : List A) → All P xs → All P (take n xs)
  All-take zero xs h = tt
  All-take (suc n) [] h = tt
  All-take (suc n) (x ∷ xs) h = (h.0, All-take n xs h.1)
