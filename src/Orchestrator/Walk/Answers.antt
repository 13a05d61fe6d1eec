-- ===== src/Orchestrator/Walk/Answers.antt =====
-- How handlers are composed that answer with a current view
-- (backend/app/services/orchestrator.py).
use mathlib.Core.Path.{subst}
use web_accessible.Prelude.{
  nat_eq, text_eq, Dict, ℕ, ◌≡◌, refl, Bool, true, false, Option, none, some,
}
use web_accessible.Store.Types.{SessionView, SessionRow}
use web_accessible.Orchestrator.Desk.{Outside, Desk, M, and_then, cond_m, ◌>>=◌, ret}
use web_accessible.Orchestrator.Walk.{IsLawful, IsCurrent}
use web_accessible.Orchestrator.Walk.Rules.{table}
use web_accessible.Orchestrator.Walk.Writes.{Gives}
use web_accessible.Orchestrator.Walk.Steps.{
  Lawful, keeping_rules, Finishing, Keeping, Finding, Giving,
}

module _ {o : Outside} {start : Dict ℕ SessionRow} {v : SessionView} where
  -- Handlers that answer with a current view.
  pub ret-Giving : Giving {o = o} start v (ret v)
  ret-Giving = record {
    kept = λ d h. record {
      lawful = h.lawful;
      gives =
          λ w e. let same : v ≡ w = cc e in subst (λ x. IsCurrent start x d.store.sessions) same h;
    };
  }

  pub find-Giving : (m : M o SessionView) → Finding start m → Giving start v m
  find-Giving m h = record { kept = λ d k. h.kept d k.lawful }

  pub cond-Giving :
      (b : Bool) (m n : M o SessionView)
      → Giving start v m
      → Giving start v n
      → Giving start v (cond_m b m n)
  cond-Giving true m n h g = h
  cond-Giving false m n h g = g

  bound-Giving :
      {A : Type 0} (r : Option A × Desk o) (f : A → M o SessionView)
      → IsCurrent start v (table r)
      → ((a : A) → Giving start v (f a))
      → Gives o start (λ w. w) (and_then r f)
  bound-Giving (none, d) f h g = record { lawful = h.lawful; gives = λ w e. absurd cc }
  bound-Giving (some a, d) f h g = (g a).kept d h

  pub then-Giving :
      {A : Type 0} (m : M o A) (f : A → M o SessionView)
      → Keeping start v m
      → ((a : A) → Giving start v (f a))
      → Giving start v (m >>= f)
  then-Giving m f h g = record { kept = λ d k. bound-Giving (m d) f (h.kept d k) g }

module _ {o : Outside} {start : Dict ℕ SessionRow} where
  give_next :
      (r : Option SessionView × Desk o) (f : SessionView → M o SessionView)
      → Gives o start (λ w. w) r
      → ((w : SessionView) → Giving start w (f w))
      → Gives o start (λ w. w) (and_then r f)
  give_next (none, d) f h g = record { lawful = h.lawful; gives = λ w e. absurd cc }
  give_next (some w, d) f h g = (g w).kept d (h.gives w refl)

  pub given-Giving :
      {v : SessionView} (m : M o SessionView) (f : SessionView → M o SessionView)
      → Giving start v m
      → ((w : SessionView) → Giving start w (f w))
      → Giving start v (m >>= f)
  given-Giving m f h g = record { kept = λ d k. give_next (m d) f (h.kept d k) g }

  pub found-Giving :
      {v : SessionView} (m : M o SessionView) (f : SessionView → M o SessionView)
      → Finding start m
      → ((w : SessionView) → Giving start w (f w))
      → Giving start v (m >>= f)
  found-Giving m f h g = record { kept = λ d k. give_next (m d) f (h.kept d k.lawful) g }

  pub found-Finding :
      (m : M o SessionView) (f : SessionView → M o SessionView)
      → Finding start m
      → ((w : SessionView) → Giving start w (f w))
      → Finding start (m >>= f)
  found-Finding m f h g = record { kept = λ d k. give_next (m d) f (h.kept d k) g }

  bound-Finding :
      {A : Type 0} (r : Option A × Desk o) (f : A → M o SessionView)
      → IsLawful start (table r)
      → ((a : A) → Finding start (f a))
      → Gives o start (λ w. w) (and_then r f)
  bound-Finding (none, d) f h g = record { lawful = h; gives = λ w e. absurd cc }
  bound-Finding (some a, d) f h g = (g a).kept d h

  pub then-Finding :
      {A : Type 0} (m : M o A) (f : A → M o SessionView)
      → Lawful start m
      → ((a : A) → Finding start (f a))
      → Finding start (m >>= f)
  then-Finding m f h g = record { kept = λ d k. bound-Finding (m d) f (h.kept d k) g }

  pub rest-Giving :
      {v : SessionView} {A : Type 0} (m : M o A) (f : A → M o SessionView)
      → Finishing start v m
      → ((a : A) → Finding start (f a))
      → Giving start v (m >>= f)
  rest-Giving m f h g = record { kept = λ d k. bound-Finding (m d) f (h.kept d k) g }

pub ruleset giving_rules = (cond-Giving, given-Giving, then-Giving, ret-Giving, keeping_rules)
