-- ===== src/Orchestrator/Desk/Inversion.antt =====
-- What a handler that succeeds went through (backend/app/services/orchestrator.py).
use web_accessible.Prelude.{
  nat_eq, text_eq, ◌≡◌, refl, ◌⊎◌, inl, inr, Bool, true, false, Option, none, some,
}
use web_accessible.Orchestrator.Desk.{Outside, Desk, M, and_then, cond_m, attempt, otherwise}

module _ {o : Outside} where
  pub bind-eq_some :
      {A B : Type 0} (r : Option A × Desk o) (f : A → M o B) (b : B)
      → (and_then r f).0 ≡ some b
      → (a : A) × (d : Desk o) × (r.0 ≡ some a) × ((f a d).0 ≡ some b)
  bind-eq_some (some a, d) f b h = (a, d, refl, h)
  bind-eq_some (none, d) f b h = cc

  pub cond_m-eq_some :
      {A : Type 0} (t : Bool) (m n : M o A) (d : Desk o) (a : A)
      → (cond_m t m n d).0 ≡ some a
      → ((t ≡ true) × ((m d).0 ≡ some a)) ⊎ ((t ≡ false) × ((n d).0 ≡ some a))
  cond_m-eq_some true m n d a h = inl (refl, h)
  cond_m-eq_some false m n d a h = inr (refl, h)

  attempt_cases :
      {A : Type 0} (r : Option A × Desk o) (n : M o A) (a : A)
      → (otherwise r n).0 ≡ some a
      → (r.0 ≡ some a) ⊎ ((n r.1).0 ≡ some a)
  attempt_cases (some b, d) n a h = inl h
  attempt_cases (none, d) n a h = inr h

  pub attempt-eq_some :
      {A : Type 0} (m n : M o A) (d : Desk o) (a : A)
      → (attempt m n d).0 ≡ some a
      → ((m d).0 ≡ some a) ⊎ ((n (m d).1).0 ≡ some a)
  attempt-eq_some m n d a h = attempt_cases (m d) n a h
