-- ===== src/Cost/Rates.antt =====
-- A cost is calculated only from one rate for each used class
-- (backend/app/services/cost_calculator.py).
use web_accessible.Prelude.{
  ◌&&◌, keep, ◌&&◌, ℕ, keep, ◌==◌, nat_eq, Text, codes, text_eq, text_beq_iff, is_blank, ◌≡◌, refl,
  sym, ◌≢◌, not, Option, none, some, List, [], ◌∷◌, arith, all,
}
use mathlib.Core.Path.{subst}
use web_accessible.Cost.{
  token_class_eq, ℕ, keep, TokenClass, CostError, Result, ok, err, ActualTokenUsage, tokens_of,
  Decimal, EffectiveRate, CalculatedModelCost, matching_rates, the_only_rate, select_one, Selection,
  select_rates, selected, common_terms, amount_of, cost_of, stable_id, price, calculate_from_rates,
  ◌>>=◌, require,
}

bind_ok {ℓ κ} :
    {A : Type ℓ} {B : Type κ} (m : Result A) (next : A → Result B) {b : B}
    → (m >>= next) ≡ ok b
    → (a : A) × (m ≡ ok a) × (next a ≡ ok b)
bind_ok (err e) next h = cc
bind_ok (ok a) next h = (a, refl, h)

module _ (d : Decimal) (version : Text) (u : ActualTokenUsage)
    (rates : List (EffectiveRate d)) where
  -- A selection holds the one matching rate of a class, or none of an unused class.
  abbrev pub IsSelected : TokenClass → Option (EffectiveRate d) → Type 0
  IsSelected c none = tokens_of u c ≡ 0
  IsSelected c (some r) =
      (tokens_of u c ≢ 0)
      × (keep (λ (q : EffectiveRate d). q.rate_card_version == version && q.token_class == c) rates
          ≡ r ∷ [])

  -- The count over the rate's unit, times the unit's price.
  abbrev pub charge : ℕ → Option (EffectiveRate d) → d.Number
  charge n none = d.of_count 0
  charge n (some r) = d.multiply (d.divide (d.of_count n) r.unit_quantity) r.unit_price

  only_rate :
      (rs : List (EffectiveRate d)) (r : EffectiveRate d) → the_only_rate d rs ≡ ok r → rs ≡ r ∷ []
  unfolding the_only_rate
  only_rate [] r h = cc
  only_rate (q ∷ []) r h = cc
  only_rate (q ∷ p ∷ rs) r h = cc

  one-IsSelected :
      (c : TokenClass) (o : Option (EffectiveRate d))
      → select_one d version u rates c ≡ ok o
      → IsSelected c o
  unfolding select_one matching_rates
  one-IsSelected c none h = ground arith
  one-IsSelected c (some r) h =
      (ground arith, only_rate (matching_rates d version c rates) r (ground arith))

  amount-charge : (n : ℕ) (o : Option (EffectiveRate d)) → amount_of d n o ≡ charge n o
  unfolding amount_of
  amount-charge n none = refl
  amount-charge n (some r) = refl

  -- The selection that a price rests on.
  pub record IsPriced (cost : CalculatedModelCost d) (s : Selection d) : Type 0 where
    pub input_selected : IsSelected TokenClass.input s.of_input
    pub cached_selected : IsSelected TokenClass.cached_input s.of_cached
    pub reasoning_selected : IsSelected TokenClass.reasoning s.of_reasoning
    pub output_selected : IsSelected TokenClass.output s.of_output
    pub input_priced : cost.input_amount ≡ charge u.input_tokens s.of_input
    pub cached_priced : cost.cached_input_amount ≡ charge u.cached_input_tokens s.of_cached
    pub reasoning_priced : cost.reasoning_amount ≡ charge u.reasoning_tokens s.of_reasoning
    pub output_priced : cost.output_amount ≡ charge u.output_tokens s.of_output
    pub total :
        cost.amount_currency
        ≡ d.add
            (d.add
              (d.add (d.add (d.of_count 0) cost.input_amount) cost.cached_input_amount)
              cost.reasoning_amount)
            cost.output_amount

  module _ (s : Selection d) (h : select_rates d version u rates ≡ ok s) where
    input_found : select_one d version u rates TokenClass.input ≡ ok s.of_input
    unfolding select_rates
    input_found = ground arith

    cached_found : select_one d version u rates TokenClass.cached_input ≡ ok s.of_cached
    unfolding select_rates
    cached_found = ground arith

    reasoning_found : select_one d version u rates TokenClass.reasoning ≡ ok s.of_reasoning
    unfolding select_rates
    reasoning_found = ground arith

    output_found : select_one d version u rates TokenClass.output ≡ ok s.of_output
    unfolding select_rates
    output_found = ground arith

    IsPriced-cost_of :
        (id : Text) (terms : EffectiveRate d) → IsPriced (cost_of d id version u s terms) s
    unfolding cost_of
    IsPriced-cost_of id terms = record {
      input_selected = one-IsSelected TokenClass.input s.of_input input_found;
      cached_selected = one-IsSelected TokenClass.cached_input s.of_cached cached_found;
      reasoning_selected = one-IsSelected TokenClass.reasoning s.of_reasoning reasoning_found;
      output_selected = one-IsSelected TokenClass.output s.of_output output_found;
      input_priced = amount-charge u.input_tokens s.of_input;
      cached_priced = amount-charge u.cached_input_tokens s.of_cached;
      reasoning_priced = amount-charge u.reasoning_tokens s.of_reasoning;
      output_priced = amount-charge u.output_tokens s.of_output;
      total = refl;
    }

  price_is_cost :
      (call_id : Text) (cost_id : Option Text) (cost : CalculatedModelCost d)
      → price d call_id version u rates cost_id ≡ ok cost
      → (s : Selection d) × (terms : EffectiveRate d) × (select_rates d version u rates ≡ ok s)
        × (common_terms d (selected d s) ≡ ok terms)
        × (cost ≡ cost_of d (stable_id d cost_id call_id version) version u s terms)
  unfolding price
  price_is_cost call_id cost_id cost h =
      let (s, hs, h₁) = bind_ok (select_rates d version u rates) _ h in
      let (terms, ht, h₂) = bind_ok (common_terms d (selected d s)) _ h₁ in
      (s, terms, hs, ht, ground arith)

  -- A cost that is returned was asked of actual usage, and rests on a selection: for each used token
  -- class the one rate of the version and class that was passed, and none for an unused class; each
  -- class is charged its count, divided by the unit of the selected rate and multiplied by its price,
  -- and nothing if it is unused; and the amount is the sum of the four.
  pub cost_needs_one_rate_each :
      (call_id : Text) (identifiers : List Text) (usage_status : Text) (cost_id : Option Text)
      (cost : CalculatedModelCost d)
      → calculate_from_rates d call_id identifiers version u usage_status rates cost_id ≡ ok cost
      → (usage_status ≡ codes "actual") × (s : Selection d) × IsPriced cost s
  unfolding calculate_from_rates
  cost_needs_one_rate_each call_id identifiers usage_status cost_id cost h =
      let (u₁, h₁, h₂) =
        bind_ok (require (usage_status == codes "actual") CostError.actual_usage_required) _ h in
      let (u₂, h₃, h₄) =
        bind_ok
          (require (all (λ s. not (is_blank s)) (call_id ∷ version ∷ identifiers))
            CostError.blank_value)
          _ h₂ in
      let (s, terms, hs, ht, e) = price_is_cost call_id cost_id cost h₄ in
      (
        ground (arith, text_beq_iff usage_status (codes "actual")),
        s,
        subst (λ c. IsPriced c s) (sym e)
            (IsPriced-cost_of s hs (stable_id d cost_id call_id version) terms),
      )
