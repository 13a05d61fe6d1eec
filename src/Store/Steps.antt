-- ===== src/Store/Steps.antt =====
-- The steps of a session come back in the order of their recording
-- (backend/app/persistence/repository.py).
use web_accessible.Prelude.{
  ◌==◌, nat_eq, text_eq, ℕ, ◌≡◌, refl, ◌≢◌, Bool, List, [], ◌∷◌, ◌++◌, map, arith, if◌then◌else◌,
  nat_beq_iff, keep,
}
use web_accessible.Contracts.Skill.{SkillStep}
use web_accessible.Store.Table.{maximum, maximum-IsBelow, next_after, order_by, order_by-snoc}
use web_accessible.Store.Types.{StepRow, Store}
use web_accessible.Store.Ledger.{record_step, get_recorded_steps, session_steps}

keep-snoc {ℓ} :
    {A : Type ℓ} (p : A → Bool) (xs : List A) (y : A)
    → keep p (xs ++ y ∷ []) ≡ keep p xs ++ (if p y then y ∷ [] else [])
keep-snoc p [] y = refl
keep-snoc p (x ∷ xs) y = ground (arith, keep-snoc p xs y)

map-snoc {ℓ κ} :
    {A : Type ℓ} {B : Type κ} (f : A → B) (xs : List A) (y : A)
    → map f (xs ++ y ∷ []) ≡ map f xs ++ f y ∷ []
map-snoc f [] y = refl
map-snoc f (x ∷ xs) y = cc (map-snoc f xs y)

append_empty {ℓ} : {A : Type ℓ} (xs : List A) → xs ++ [] ≡ xs
append_empty [] = refl
append_empty (x ∷ xs) = cc (append_empty xs)

-- A recorded step comes back as the last of its session's steps, behind those recorded before in
-- their order, and the steps of the other sessions stay as they are.
pub get-record_step :
    (k j : ℕ) (step : SkillStep) (now : ℕ) (s : Store)
    → j ≢ k
    → (get_recorded_steps k (record_step k step now s).1 ≡ get_recorded_steps k s ++ step ∷ [])
      × (get_recorded_steps j (record_step k step now s).1 ≡ get_recorded_steps j s)
unfolding record_step get_recorded_steps
get-record_step k j step now s n =
    let steps = session_steps k s in
    let key = λ (r : StepRow). r.step_no in
    let row : StepRow = record {
      session_id = k;
      step_no = next_after (maximum key steps);
      step = step;
      created_at = now;
    } in
    (
      rw (keep-snoc (λ (r : StepRow). r.session_id == k) s.steps row, (nat_beq_iff k k).1 refl)
          (rw (order_by-snoc key steps row (maximum-IsBelow key steps))
            (map-snoc (λ (r : StepRow). r.step) (order_by key steps) row)),
      rw (keep-snoc (λ (r : StepRow). r.session_id == j) s.steps row)
          (ground (arith, append_empty (session_steps j s))),
    )
