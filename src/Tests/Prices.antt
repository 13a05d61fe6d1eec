-- ===== src/Tests/Prices.antt =====
-- A call of 1000 input tokens at 3 for each (backend/app/services/cost_calculator.py).
use web_accessible.Prelude.{
  nat_eq, Text, codes, text_eq, ℕ, ◌+◌, ◌*◌, ◌/◌, ◌≡◌, refl, none, [], ◌∷◌, nat_beq,
}
use web_accessible.Cost.{
  TokenClass, CostError, ok, err, ActualTokenUsage, Decimal, EffectiveRate, CalculatedModelCost,
  Selection, select_rates, select_one, matching_rates, selected, common_terms, price, cost_of,
  calculate_from_rates,
}
use web_accessible.Cost.Rates.{IsPriced, cost_needs_one_rate_each}

-- Whole numbers, with division rounded down.
abbrev whole : Decimal
whole = record {
  Number = ℕ;
  of_count = λ n. n;
  add = λ a b. a + b;
  multiply = λ a b. a * b;
  divide = λ a b. a / b;
  same = nat_beq;
}

abbrev card : Text
card = codes "v1"

abbrev input_rate : EffectiveRate whole
input_rate = record {
  rate_card_version = card;
  token_class = TokenClass.input;
  unit_quantity = 1;
  unit_price = 3;
  currency = codes "USD";
  usd_conversion_rate = 1;
  rounding_rule = codes "half_up";
}

abbrev thousand : ActualTokenUsage
thousand = record {
  input_tokens = 1000;
  cached_input_tokens = 0;
  reasoning_tokens = 0;
  output_tokens = 0;
}

abbrev three_thousand : CalculatedModelCost whole
three_thousand = record {
  cost_id = codes "model-cost:c1:v1";
  rate_card_version = card;
  usage = thousand;
  input_amount = 3000;
  cached_input_amount = 0;
  reasoning_amount = 0;
  output_amount = 0;
  amount_currency = 3000;
  currency = codes "USD";
  amount_usd = 3000;
  credits = none;
}

priced :
    calculate_from_rates whole
      (codes "c1")
      (codes "s1" ∷ [])
      card
      thousand
      (codes "actual")
      (input_rate ∷ [])
      none
    ≡ ok three_thousand
unfolding calculate_from_rates price select_rates select_one matching_rates selected common_terms
    cost_of
priced = refl

overlapping :
    calculate_from_rates whole
      (codes "c1")
      (codes "s1" ∷ [])
      card
      thousand
      (codes "actual")
      (input_rate ∷ input_rate ∷ [])
      none
    ≡ err CostError.unknown_rate_card
unfolding calculate_from_rates price select_rates select_one matching_rates selected common_terms
    cost_of
overlapping = refl

cost_needs_one_rate_each_example :
    (codes "actual" ≡ codes "actual")
    × (s : Selection whole) × IsPriced whole card thousand (input_rate ∷ []) three_thousand s
cost_needs_one_rate_each_example =
    cost_needs_one_rate_each whole card thousand (input_rate ∷ []) (codes "c1") (codes "s1" ∷ [])
      (codes "actual") none three_thousand priced
