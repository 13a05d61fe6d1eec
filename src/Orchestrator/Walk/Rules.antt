-- ===== src/Orchestrator/Walk/Rules.antt =====
-- Handlers that leave the table of sessions as it is (backend/app/services/orchestrator.py).
use web_accessible.Prelude.{
  nat_eq, text_eq, Dict, ℕ, ◌≡◌, refl, ◌∙◌, Bool, true, false, Option, none, some,
}
use web_accessible.Store.Types.{SessionRow}
use web_accessible.Orchestrator.Desk.{Outside, Desk, M, and_then, need, cond_m, otherwise}

module _ {o : Outside} where
  -- The table of sessions after a handler.
  abbrev pub table : {A : Type 0} → Option A × Desk o → Dict ℕ SessionRow
  table r = r.1.store.sessions

  pub silent-then :
      {A B : Type 0} (r : Option A × Desk o) (f : A → M o B) (t : Dict ℕ SessionRow)
      → table r ≡ t
      → ((a : A) (d : Desk o) → table (f a d) ≡ d.store.sessions)
      → table (and_then r f) ≡ t
  silent-then (none, d) f t h g = h
  silent-then (some a, d) f t h g = g a d ∙ h

  pub silent-cond :
      {A : Type 0} (b : Bool) (m n : M o A) (d : Desk o) (t : Dict ℕ SessionRow)
      → table (m d) ≡ t
      → table (n d) ≡ t
      → table (cond_m b m n d) ≡ t
  silent-cond true m n d t h g = h
  silent-cond false m n d t h g = g

  pub silent-otherwise :
      {A : Type 0} (r : Option A × Desk o) (n : M o A) (t : Dict ℕ SessionRow)
      → table r ≡ t
      → ((d : Desk o) → table (n d) ≡ d.store.sessions)
      → table (otherwise r n) ≡ t
  silent-otherwise (some a, d) n t h g = h
  silent-otherwise (none, d) n t h g = g d ∙ h

  pub silent-need : {A : Type 0} (a : Option A) (d : Desk o) → table (need a d) ≡ d.store.sessions
  silent-need none d = refl
  silent-need (some x) d = refl

pub ruleset silent_rules = (silent-then, silent-cond, silent-otherwise, silent-need)
