-- ===== src/Skill/Repair.antt =====
-- The repair of one step of a routine (backend/app/services/repair.py).
pub mod Revision
use web_accessible.Prelude.{
  Comparable, ◌==◌, nat_eq, eq_of_discrete, contains, dec_beq_iff, Text, codes, text_eq, is_space,
  is_nonempty, text_beq_iff, text_beq_refl, lower_idem, text_beq, lower_char, lower, lstrip, strip,
  is_blank, starts_with, occurs_in, Dict, lookup-put, lookup-remove, lookup-set_default, dict_laws,
  lookup, put, remove, set_default, ℕ, zero, suc, ◌+◌, ◌-◌, ◌*◌, ◌/◌, ◌%◌, ◌≤◌, ◌<◌, ◌≡◌, refl, sym,
  ap, ◌∙◌, ◌≢◌, ◌↔◌, ◌⊎◌, inl, inr, Bool, true, false, not, ◌&&◌, ◌||◌, Option, none, some, List,
  [], ◌∷◌, ◌++◌, map, reverse, arith, ltb, leb, nat_beq, if◌then◌else◌, ltb→lt, lt→ltb, leb→le,
  le→leb, nat_beq_iff, Bool-cases, Option-cases, length, get_elem?, set, take, drop, keep, count,
  any, all, All, length-append, length-set, length-keep, count-le-length, pos_part, neg_part, sub_ℕ,
  leb_ℤ, ltb_ℤ, sub_ℕ-le_iff, sub_ℕ-lt_iff, ℤ, pos, negsuc,
}
use web_accessible.Contracts.Skill.{RepairRecord, SkillStep, SkillDocument}

-- The replacement, with the old step's history and one record more, made at the clock's reading.
unfoldable pub repaired_step : SkillDocument → SkillStep → SkillStep → Text → ℕ → SkillStep
repaired_step skill old replacement reason repaired_at = record replacement {
  repair_history =
      old.repair_history
      ++ record { repaired_at = repaired_at; source_revision = skill.revision; reason = reason }
        ∷ [];
}

-- The bounds that `RepairRecord` validates.
unfoldable pub is_repair_record : SkillDocument → Text → Bool
is_repair_record skill reason =
    leb 1 skill.revision && (leb 1 (length reason) && leb (length reason) 160)

revise : SkillDocument → ℕ → SkillStep → Text → ℕ → ℕ → Option SkillStep → Option SkillDocument
unfolding repaired_step is_repair_record
revise skill index replacement reason repaired_at created_at none = none
revise skill index replacement reason repaired_at created_at (some old) =
    if is_repair_record skill reason
    then some (record skill {
      revision = skill.revision + 1;
      steps = set skill.steps index (repaired_step skill old replacement reason repaired_at);
      created_at = created_at;
    })
    else none

-- `revise_one_step`, with the clock's two readings; `none` stands for `IndexError` and
-- `ValidationError`.
unfoldable pub revise_one_step : SkillDocument → ℕ → SkillStep → Text → ℕ → ℕ → Option SkillDocument
unfolding revise
revise_one_step skill step_index replacement reason repaired_at created_at =
    revise skill step_index replacement reason repaired_at created_at
      (get_elem? skill.steps step_index)
