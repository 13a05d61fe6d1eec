-- ===== src/Orchestrator/Walk/Steps.antt =====
-- How handlers are composed of steps that keep the table of sessions lawful, or a view current
-- (backend/app/services/orchestrator.py). Each rule reads a handler from its first step on.
use web_accessible.Prelude.{
  nat_eq, text_eq, Dict, ℕ, ◌≡◌, refl, Bool, true, false, Option, none, some,
}
use web_accessible.Store.Types.{SessionView, SessionRow}
use web_accessible.Orchestrator.Desk.{
  raise, Outside, Desk, M, and_then, cond_m, otherwise, ◌>>=◌, attempt,
}
use web_accessible.Orchestrator.Walk.{IsLawful, IsCurrent}
use web_accessible.Orchestrator.Walk.Rules.{table}
use web_accessible.Orchestrator.Walk.Writes.{Gives}

module _ {o : Outside} (start : Dict ℕ SessionRow) where
  -- A handler that keeps the table lawful.
  pub record Lawful {A : Type 0} (m : M o A) : Type 0 where
    pub kept : (d : Desk o) → IsLawful start d.store.sessions → IsLawful start (table (m d))

  -- A handler that keeps it so where a view is current at first.
  pub record Finishing (v : SessionView) {A : Type 0} (m : M o A) : Type 0 where
    pub kept : (d : Desk o) → IsCurrent start v d.store.sessions → IsLawful start (table (m d))

  -- A handler under which the view stays current.
  pub record Keeping (v : SessionView) {A : Type 0} (m : M o A) : Type 0 where
    pub kept : (d : Desk o) → IsCurrent start v d.store.sessions → IsCurrent start v (table (m d))

  -- A handler whose answer is a current view, from a lawful table or from a current view.
  pub record Finding (m : M o SessionView) : Type 0 where
    pub kept : (d : Desk o) → IsLawful start d.store.sessions → Gives o start (λ w. w) (m d)

  pub record Giving (v : SessionView) (m : M o SessionView) : Type 0 where
    pub kept : (d : Desk o) → IsCurrent start v d.store.sessions → Gives o start (λ w. w) (m d)

module _ {o : Outside} {start : Dict ℕ SessionRow} where
  -- Lawful handlers.
  pub silent-Lawful :
      {A : Type 0} (m : M o A) → ((d : Desk o) → table (m d) ≡ d.store.sessions) → Lawful start m
  silent-Lawful m e = record { kept = λ d h. rw (e d) h }

  pub find-Lawful : (m : M o SessionView) → Finding start m → Lawful start m
  find-Lawful m h = record { kept = λ d k. (h.kept d k).lawful }

  pub cond-Lawful :
      {A : Type 0} (b : Bool) (m n : M o A)
      → Lawful start m
      → Lawful start n
      → Lawful start (cond_m b m n)
  cond-Lawful true m n h g = h
  cond-Lawful false m n h g = g

  bound-Lawful :
      {A B : Type 0} (r : Option A × Desk o) (f : A → M o B)
      → IsLawful start (table r)
      → ((a : A) → Lawful start (f a))
      → IsLawful start (table (and_then r f))
  bound-Lawful (none, d) f h g = h
  bound-Lawful (some a, d) f h g = (g a).kept d h

  pub then-Lawful :
      {A B : Type 0} (m : M o A) (f : A → M o B)
      → Lawful start m
      → ((a : A) → Lawful start (f a))
      → Lawful start (m >>= f)
  then-Lawful m f h g = record { kept = λ d k. bound-Lawful (m d) f (h.kept d k) g }

  bound-Finishing :
      {A B : Type 0} (v : SessionView) (r : Option A × Desk o) (f : A → M o B)
      → IsCurrent start v (table r)
      → ((a : A) → Finishing start v (f a))
      → IsLawful start (table (and_then r f))
  bound-Finishing v (none, d) f h g = h.lawful
  bound-Finishing v (some a, d) f h g = (g a).kept d h

  found_next :
      {B : Type 0} (r : Option SessionView × Desk o) (f : SessionView → M o B)
      → Gives o start (λ w. w) r
      → ((w : SessionView) → Finishing start w (f w))
      → IsLawful start (table (and_then r f))
  found_next (none, d) f h g = h.lawful
  found_next (some w, d) f h g = (g w).kept d (h.gives w refl)

  pub found-Lawful :
      {B : Type 0} (m : M o SessionView) (f : SessionView → M o B)
      → Finding start m
      → ((w : SessionView) → Finishing start w (f w))
      → Lawful start (m >>= f)
  found-Lawful m f h g = record { kept = λ d k. found_next (m d) f (h.kept d k) g }

module _ {o : Outside} {start : Dict ℕ SessionRow} {v : SessionView} where
  -- Handlers that begin with a current view.
  pub keep-Finishing : {A : Type 0} (m : M o A) → Keeping start v m → Finishing start v m
  keep-Finishing m h = record { kept = λ d k. (h.kept d k).lawful }

  pub plain-Finishing : {A : Type 0} (m : M o A) → Lawful start m → Finishing start v m
  plain-Finishing m h = record { kept = λ d k. h.kept d k.lawful }

  pub give-Finishing : (m : M o SessionView) → Giving start v m → Finishing start v m
  give-Finishing m h = record { kept = λ d k. (h.kept d k).lawful }

  pub raise-Finishing : {A : Type 0} → Finishing {o = o} start v {A = A} raise
  raise-Finishing = record { kept = λ d k. k.lawful }

  pub cond-Finishing :
      {A : Type 0} (b : Bool) (m n : M o A)
      → Finishing start v m
      → Finishing start v n
      → Finishing start v (cond_m b m n)
  cond-Finishing true m n h g = h
  cond-Finishing false m n h g = g

  pub then-Finishing :
      {A B : Type 0} (m : M o A) (f : A → M o B)
      → Keeping start v m
      → ((a : A) → Finishing start v (f a))
      → Finishing start v (m >>= f)
  then-Finishing m f h g = record { kept = λ d k. bound-Finishing v (m d) f (h.kept d k) g }

  pub given-Finishing :
      {B : Type 0} (m : M o SessionView) (f : SessionView → M o B)
      → Giving start v m
      → ((w : SessionView) → Finishing start w (f w))
      → Finishing start v (m >>= f)
  given-Finishing m f h g = record { kept = λ d k. found_next (m d) f (h.kept d k) g }

  -- Where the view that stays current is the one that is still to be used.
  pub rest-Finishing :
      {A B : Type 0} (m : M o A) (f : A → M o B)
      → Finishing start v m
      → ((a : A) → Lawful start (f a))
      → Finishing start v (m >>= f)
  rest-Finishing m f h g = record { kept = λ d k. bound-Lawful (m d) f (h.kept d k) g }

  -- Handlers under which it stays current.
  pub silent-Keeping :
      {A : Type 0} (m : M o A) → ((d : Desk o) → table (m d) ≡ d.store.sessions) → Keeping start v m
  silent-Keeping m e = record { kept = λ d h. rw (e d) h }

  pub cond-Keeping :
      {A : Type 0} (b : Bool) (m n : M o A)
      → Keeping start v m
      → Keeping start v n
      → Keeping start v (cond_m b m n)
  cond-Keeping true m n h g = h
  cond-Keeping false m n h g = g

  bound-Keeping :
      {A B : Type 0} (r : Option A × Desk o) (f : A → M o B)
      → IsCurrent start v (table r)
      → ((a : A) → Keeping start v (f a))
      → IsCurrent start v (table (and_then r f))
  bound-Keeping (none, d) f h g = h
  bound-Keeping (some a, d) f h g = (g a).kept d h

  pub then-Keeping :
      {A B : Type 0} (m : M o A) (f : A → M o B)
      → Keeping start v m
      → ((a : A) → Keeping start v (f a))
      → Keeping start v (m >>= f)
  then-Keeping m f h g = record { kept = λ d k. bound-Keeping (m d) f (h.kept d k) g }

  handled :
      {A : Type 0} (r : Option A × Desk o) (n : M o A)
      → IsCurrent start v (table r)
      → Keeping start v n
      → IsCurrent start v (table (otherwise r n))
  handled (none, d) n h g = g.kept d h
  handled (some a, d) n h g = h

  pub attempt-Keeping :
      {A : Type 0} (m n : M o A)
      → Keeping start v m
      → Keeping start v n
      → Keeping start v (attempt m n)
  attempt-Keeping m n h g = record { kept = λ d k. handled (m d) n (h.kept d k) g }

-- A handler whose steps leave a current view current, and one that ends with it.
pub ruleset keeping_rules = (then-Keeping, cond-Keeping, attempt-Keeping, silent-Keeping)

pub ruleset ending_rules =
    (cond-Finishing, given-Finishing, then-Finishing, keep-Finishing, keeping_rules)
