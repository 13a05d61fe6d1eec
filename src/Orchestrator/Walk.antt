-- ===== src/Orchestrator/Walk.antt =====
-- How far the orchestrator's handlers may move the sessions of the store
-- (backend/app/services/orchestrator.py): along the table of transitions.
pub mod Rules
pub mod Silent
pub mod Current
pub mod Writes
pub mod Steps
pub mod Answers
pub mod Endings
pub mod Pairs
pub mod Rounds
pub mod Actions
pub mod Calls
pub mod Trace
use web_accessible.Prelude.{
  Comparable, ◌==◌, nat_eq, eq_of_discrete, contains, dec_beq_iff, Text, codes, text_eq, is_space,
  is_nonempty, text_beq_iff, text_beq_refl, lower_idem, text_beq, lower_char, lower, lstrip, strip,
  is_blank, starts_with, occurs_in, Dict, lookup-put, lookup-remove, lookup-set_default, dict_laws,
  lookup, put, remove, set_default, ℕ, zero, suc, ◌+◌, ◌-◌, ◌*◌, ◌/◌, ◌%◌, ◌≤◌, ◌<◌, ◌≡◌, refl, sym,
  ap, ◌∙◌, ◌≢◌, ◌↔◌, ◌⊎◌, inl, inr, Bool, true, false, not, ◌&&◌, ◌||◌, Option, none, some, List,
  [], ◌∷◌, ◌++◌, map, reverse, arith, ltb, leb, nat_beq, if◌then◌else◌, ltb→lt, lt→ltb, leb→le,
  le→leb, nat_beq_iff, Bool-cases, Option-cases, length, get_elem?, set, take, drop, keep, count,
  any, all, All, length-append, length-set, length-keep, count-le-length, pos_part, neg_part, sub_ℕ,
  leb_ℤ, ltb_ℤ, sub_ℕ-le_iff, sub_ℕ-lt_iff, ℤ, pos, negsuc,
}
use web_accessible.Contracts.State.{SessionState}
use web_accessible.Session.Reach.{Reach, Reach-trans}
use web_accessible.Store.Types.{SessionView, SessionRow}

-- A session before and after: it is the same one, it moved along the table of transitions, and its
-- version did not fall.
pub record Moves (v w : SessionView) : Type 0 where
  pub id : w.id ≡ v.id
  pub path : Reach v.state w.state
  pub version : v.state_version ≤ w.state_version

-- What stands under a key before and after. A session that was not there appears as a created one,
-- and none vanishes.
abbrev pub Follows : ℕ → Option SessionView → Option SessionView → Type 0
Follows k none none = Unit
Follows k none (some w) = (w.id ≡ k) × Reach SessionState.created w.state
Follows k (some v) (some w) = Moves v w
Follows k (some v) none = ⊥

abbrev pub IsKeyed : ℕ → Option SessionView → Type 0
IsKeyed k none = Unit
IsKeyed k (some v) = v.id ≡ k

abbrev pub HasState : SessionState → Option SessionView → Type 0
HasState s none = ⊥
HasState s (some u) = u.state ≡ s

pub Follows-refl : (k : ℕ) (r : Option SessionView) → Follows k r r
Follows-refl k none = tt
Follows-refl k (some v) = record { id = refl; path = Reach.here; version = omega arith }

pub Follows-trans :
    (k : ℕ) (r s t : Option SessionView) → Follows k r s → Follows k s t → Follows k r t
Follows-trans k none none t a b = b
Follows-trans k none (some v) (some w) a b = (b.id ∙ a.0, Reach-trans a.1 b.path)
Follows-trans k none (some v) none a b = absurd b
Follows-trans k (some u) none t a b = absurd a
Follows-trans k (some u) (some v) none a b = b
Follows-trans k (some u) (some v) (some w) a b = record {
  id = b.id ∙ a.id;
  path = Reach-trans a.path b.path;
  version = omega (arith, a.version, b.version);
}

-- What the table of sessions holds under a key.
abbrev pub payload_of : Option SessionRow → Option SessionView
payload_of none = none
payload_of (some row) = some row.payload

abbrev pub held : ℕ → Dict ℕ SessionRow → Option SessionView
held k t = payload_of (lookup k t)

-- A table that the handlers may reach from another one: every session stands under its own
-- identifier, and followed the transitions.
pub record IsLawful (start t : Dict ℕ SessionRow) : Type 0 where
  pub keyed : (k : ℕ) → IsKeyed k (held k t)
  pub follows : (k : ℕ) → Follows k (held k start) (held k t)

-- Such a table, in which a view at hand shows the state that its session is in.
pub record IsCurrent (start : Dict ℕ SessionRow) (v : SessionView) (t : Dict ℕ SessionRow)
    : Type 0 where
  pub lawful : IsLawful start t
  pub current : HasState v.state (held v.id t)
