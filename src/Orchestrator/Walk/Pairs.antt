-- ===== src/Orchestrator/Walk/Pairs.antt =====
-- How handlers are composed that answer with a session and a result of the planner
-- (backend/app/services/orchestrator.py).
use mathlib.Core.Path.{subst}
use web_accessible.Prelude.{
  nat_eq, text_eq, Dict, ℕ, ◌≡◌, refl, Bool, true, false, Option, none, some,
}
use web_accessible.Contracts.State.{mode_eq, state_eq}
use web_accessible.Store.Types.{SessionView, SessionRow}
use web_accessible.Orchestrator.Desk.{
  Outside, Desk, M, GuidanceResult, and_then, cond_m, ◌>>=◌, ret,
}
use web_accessible.Orchestrator.Walk.{IsCurrent}
use web_accessible.Orchestrator.Walk.Rules.{table}
use web_accessible.Orchestrator.Walk.Writes.{Gives}
use web_accessible.Orchestrator.Walk.Steps.{
  Lawful, Finishing, Keeping, Finding, Giving, silent-Lawful, find-Lawful, cond-Lawful, then-Lawful,
  found-Lawful, keep-Finishing, plain-Finishing, give-Finishing, cond-Finishing, then-Finishing,
  given-Finishing, rest-Finishing, silent-Keeping, cond-Keeping, then-Keeping, attempt-Keeping,
  keeping_rules, ending_rules,
}

-- A handler that answers with a current view and a result of the planner.
module _ {o : Outside} (start : Dict ℕ SessionRow) where
  pub record Pairing (v : SessionView) (m : M o (SessionView × GuidanceResult)) : Type 0 where
    pub kept : (d : Desk o) → IsCurrent start v d.store.sessions → Gives o start (λ a. a.0) (m d)

module _ {o : Outside} {start : Dict ℕ SessionRow} where
  give_next :
      (r : Option SessionView × Desk o) (f : SessionView → M o (SessionView × GuidanceResult))
      → Gives o start (λ w. w) r
      → ((w : SessionView) → Pairing start w (f w))
      → Gives o start (λ a. a.0) (and_then r f)
  give_next (none, d) f h g = record { lawful = h.lawful; gives = λ w e. absurd cc }
  give_next (some w, d) f h g = (g w).kept d (h.gives w refl)

  pair_next :
      (r : Option (SessionView × GuidanceResult) × Desk o)
      (f : SessionView × GuidanceResult → M o SessionView)
      → Gives o start (λ a. a.0) r
      → ((a : SessionView × GuidanceResult) → Giving start a.0 (f a))
      → Gives o start (λ w. w) (and_then r f)
  pair_next (none, d) f h g = record { lawful = h.lawful; gives = λ w e. absurd cc }
  pair_next (some a, d) f h g = (g a).kept d (h.gives a refl)

module _ {o : Outside} {start : Dict ℕ SessionRow} {v : SessionView} where
  pub ret-Pairing : (r : GuidanceResult) → Pairing {o = o} start v (ret (v, r))
  ret-Pairing r = record {
    kept = λ d h. record {
      lawful = h.lawful;
      gives = λ a e.
          let same : v ≡ a.0 = cc e in subst (λ x. IsCurrent start x d.store.sessions) same h;
    };
  }

  pub cond-Pairing :
      (b : Bool) (m n : M o (SessionView × GuidanceResult))
      → Pairing start v m
      → Pairing start v n
      → Pairing start v (cond_m b m n)
  cond-Pairing true m n h g = h
  cond-Pairing false m n h g = g

  keep_next :
      {A : Type 0} (r : Option A × Desk o) (f : A → M o (SessionView × GuidanceResult))
      → IsCurrent start v (table r)
      → ((a : A) → Pairing start v (f a))
      → Gives o start (λ a. a.0) (and_then r f)
  keep_next (none, d) f h g = record { lawful = h.lawful; gives = λ w e. absurd cc }
  keep_next (some a, d) f h g = (g a).kept d h

  pub then-Pairing :
      {A : Type 0} (m : M o A) (f : A → M o (SessionView × GuidanceResult))
      → Keeping start v m
      → ((a : A) → Pairing start v (f a))
      → Pairing start v (m >>= f)
  then-Pairing m f h g = record { kept = λ d k. keep_next (m d) f (h.kept d k) g }

  pub given-Pairing :
      (m : M o SessionView) (f : SessionView → M o (SessionView × GuidanceResult))
      → Giving start v m
      → ((w : SessionView) → Pairing start w (f w))
      → Pairing start v (m >>= f)
  given-Pairing m f h g = record { kept = λ d k. give_next (m d) f (h.kept d k) g }

  pub paired-Giving :
      (m : M o (SessionView × GuidanceResult)) (f : SessionView × GuidanceResult → M o SessionView)
      → Pairing start v m
      → ((a : SessionView × GuidanceResult) → Giving start a.0 (f a))
      → Giving start v (m >>= f)
  paired-Giving m f h g = record { kept = λ d k. pair_next (m d) f (h.kept d k) g }

pub ruleset pairing_rules = (cond-Pairing, given-Pairing, then-Pairing, ret-Pairing, keeping_rules)
