-- ===== src/Store/Table.antt =====
-- What the store (backend/app/persistence/repository.py) uses of SQL: inserts under a primary key,
-- and the order of a result. Rows that are equal in the order keep the order of their insertion.
use web_accessible.Prelude.{
  inr, lookup-put, inl, ◌==◌, Bool-cases, Option-cases, ◌⊎◌, Comparable, nat_eq, text_eq, Dict,
  lookup, put, ℕ, ◌+◌, ◌≤◌, ◌<◌, ◌≡◌, refl, Bool, true, false, Option, none, some, List, [], ◌∷◌,
  ◌++◌, arith, ltb, leb, if◌then◌else◌, All,
}

module _ {ℓ} {K V : Type ℓ} ⦃e : Comparable K⦄ where
  -- `INSERT INTO`: `none` is `sqlite3.IntegrityError`.
  unfoldable pub insert : K → V → Dict K V → Option (Dict K V)
  insert k v d = elim (lookup k d) [ none ↦ some (put k v d) | some old ↦ none ]

  -- `INSERT OR IGNORE`, with `cursor.rowcount == 1`.
  unfoldable pub insert_or_ignore : K → V → Dict K V → Dict K V × Bool
  insert_or_ignore k v d = elim (lookup k d) [ none ↦ (put k v d, true) | some old ↦ (d, false) ]

module _ {ℓ} {K V : Type ℓ} ⦃e : Comparable K⦄ where
  insert_new :
      (k : K) (v : V) (d : Dict K V)
      → lookup k d ≡ none
      → insert_or_ignore k v d ≡ (put k v d, true)
  unfolding insert_or_ignore
  insert_new k v d h = rw (h, insert_or_ignore) refl

  insert_old :
      (k : K) (v u : V) (d : Dict K V) → lookup k d ≡ some u → insert_or_ignore k v d ≡ (d, false)
  unfolding insert_or_ignore
  insert_old k v u d h = rw (h, insert_or_ignore) refl

  -- A second insertion under a key is ignored, whatever it holds.
  pub insert_or_ignore_once :
      (k : K) (v w : V) (d : Dict K V)
      → insert_or_ignore k w (insert_or_ignore k v d).0 ≡ ((insert_or_ignore k v d).0, false)
  insert_or_ignore_once k v w d = elim (Option-cases (lookup k d)) [
    | inl new ↦
        let there : lookup k (put k v d) ≡ some v =
          rw (lookup-put k k v d, (e.same_iff k k).1 refl) refl in
        rw (insert_new k v d new) (insert_old k w v (put k v d) there)
    | inr (u, old) ↦ rw (insert_old k v u d old) (insert_old k w u d old)
  ]

  -- What stands in a table after a write was written, or stood there before.
  pub lookup-put-cases :
      (k j : K) (v w : V) (d : Dict K V)
      → lookup j (put k v d) ≡ some w
      → ((k ≡ j) × (w ≡ v)) ⊎ (lookup j d ≡ some w)
  lookup-put-cases k j v w d h = elim (Bool-cases (k == j)) [
    | inl t ↦ inl ((e.same_iff k j).0 t, cc (rw (lookup-put k j v d, t) at h))
    | inr f ↦ inr (rw (lookup-put k j v d, f) at h)
  ]

-- One more than the greatest key there is, from 1.
abbrev pub next_after : Option ℕ → ℕ
next_after none = 1
next_after (some m) = m + 1

module _ {ℓ} {A : Type ℓ} where
  unfoldable pub place : (A → ℕ) → A → List A → List A
  place key x [] = x ∷ []
  place key x (y ∷ ys) = if leb (key x) (key y) then x ∷ y ∷ ys else y ∷ place key x ys

  -- `ORDER BY key`
  unfoldable pub order_by : (A → ℕ) → List A → List A
  unfolding place
  order_by key [] = []
  order_by key (x ∷ xs) = place key x (order_by key xs)

  unfoldable pub place_desc : (A → ℕ) → A → List A → List A
  place_desc key x [] = x ∷ []
  place_desc key x (y ∷ ys) = if leb (key y) (key x) then x ∷ y ∷ ys else y ∷ place_desc key x ys

  -- `ORDER BY key DESC`
  unfoldable pub order_by_desc : (A → ℕ) → List A → List A
  unfolding place_desc
  order_by_desc key [] = []
  order_by_desc key (x ∷ xs) = place_desc key x (order_by_desc key xs)

  -- `MAX(key)`, which is `NULL` over no rows.
  unfoldable pub maximum : (A → ℕ) → List A → Option ℕ
  maximum key [] = none
  maximum key (x ∷ xs) = elim (maximum key xs) [
    | none ↦ some (key x)
    | some m ↦ some (if ltb m (key x) then key x else m)
  ]

  -- A row that no row of a list exceeds goes behind all of them.
  place_behind :
      (key : A → ℕ) (x y : A) (ys : List A)
      → key x < key y
      → place key x (ys ++ y ∷ []) ≡ place key x ys ++ y ∷ []
  unfolding place
  place_behind key x y [] h = ground arith
  place_behind key x y (z ∷ ys) h = ground (arith, place_behind key x y ys)

  -- Below every key of the list.
  abbrev pub IsBelow : (A → ℕ) → ℕ → List A → Type 0
  IsBelow key n xs = All (λ x. key x < n) xs

  pub order_by-snoc :
      (key : A → ℕ) (xs : List A) (y : A)
      → IsBelow key (key y) xs
      → order_by key (xs ++ y ∷ []) ≡ order_by key xs ++ y ∷ []
  unfolding order_by
  order_by-snoc key [] y h = refl
  order_by-snoc key (x ∷ xs) y h =
      rw (order_by-snoc key xs y h.1) (place_behind key x y (order_by key xs) h.0)

  IsBelow-weaken :
      (key : A → ℕ) (m n : ℕ) (xs : List A) → m ≤ n → IsBelow key m xs → IsBelow key n xs
  IsBelow-weaken key m n [] h b = tt
  IsBelow-weaken key m n (x ∷ xs) h b = (omega arith, IsBelow-weaken key m n xs h b.1)

  pub maximum-IsBelow : (key : A → ℕ) (xs : List A) → IsBelow key (next_after (maximum key xs)) xs
  unfolding maximum
  maximum-IsBelow key [] = tt
  maximum-IsBelow key (x ∷ xs) = (
    ground arith,
    IsBelow-weaken key (next_after (maximum key xs)) (next_after (maximum key (x ∷ xs))) xs
        (ground arith) (maximum-IsBelow key xs),
  )
