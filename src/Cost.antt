-- ===== src/Cost.antt =====
-- The cost of a model call from dated rate cards (backend/app/services/cost_calculator.py).
-- `Decimal`, with the rounding of its context, is a parameter: the cost is stated in its operations.
pub mod Rates
use web_accessible.Prelude.{
  Comparable, ◌==◌, nat_eq, eq_of_discrete, contains, dec_beq_iff, Text, codes, text_eq, is_space,
  is_nonempty, text_beq_iff, text_beq_refl, lower_idem, text_beq, lower_char, lower, lstrip, strip,
  is_blank, starts_with, occurs_in, Dict, lookup-put, lookup-remove, lookup-set_default, dict_laws,
  lookup, put, remove, set_default, ℕ, zero, suc, ◌+◌, ◌-◌, ◌*◌, ◌/◌, ◌%◌, ◌≤◌, ◌<◌, ◌≡◌, refl, sym,
  ap, ◌∙◌, ◌≢◌, ◌↔◌, ◌⊎◌, inl, inr, Bool, true, false, not, ◌&&◌, ◌||◌, Option, none, some, List,
  [], ◌∷◌, ◌++◌, map, reverse, arith, ltb, leb, nat_beq, if◌then◌else◌, ltb→lt, lt→ltb, leb→le,
  le→leb, nat_beq_iff, Bool-cases, Option-cases, length, get_elem?, set, take, drop, keep, count,
  any, all, All, length-append, length-set, length-keep, count-le-length, pos_part, neg_part, sub_ℕ,
  leb_ℤ, ltb_ℤ, sub_ℕ-le_iff, sub_ℕ-lt_iff, ℤ, pos, negsuc,
}

pub data TokenClass : Type 0 where
  input cached_input reasoning output : TokenClass

unfoldable pub TokenClass-discrete : Discrete TokenClass
TokenClass-discrete = hlevel

instance abbrev pub token_class_eq : Comparable TokenClass
token_class_eq = eq_of_discrete TokenClass-discrete

pub data CostError : Type 0 where
  actual_usage_required unknown_rate_card blank_value : CostError

pub data Result {ℓ} (A : Type ℓ) : Type ℓ where
  ok : A → Result A
  err : CostError → Result A

infixl 8 ◌>>=◌ ◌>>◌
abbrev pub ◌>>=◌ {ℓ κ} : {A : Type ℓ} {B : Type κ} → Result A → (A → Result B) → Result B
ok a >>= next = next a
err e >>= next = err e

abbrev pub ◌>>◌ {ℓ} : {B : Type ℓ} → Result (Unit {0}) → Result B → Result B
first >> second = first >>= λ u. second

abbrev pub require : Bool → CostError → Result (Unit {0})
require true e = ok tt
require false e = err e

pub record ActualTokenUsage : Type 0 where
  pub input_tokens : ℕ
  pub cached_input_tokens : ℕ
  pub reasoning_tokens : ℕ
  pub output_tokens : ℕ

-- `as_counts`
unfoldable pub tokens_of : ActualTokenUsage → TokenClass → ℕ
tokens_of u TokenClass.input = u.input_tokens
tokens_of u TokenClass.cached_input = u.cached_input_tokens
tokens_of u TokenClass.reasoning = u.reasoning_tokens
tokens_of u TokenClass.output = u.output_tokens

abbrev pub token_classes : List TokenClass
token_classes =
    TokenClass.input ∷ TokenClass.cached_input ∷ TokenClass.reasoning ∷ TokenClass.output ∷ []

-- `ActualTokenUsage.__post_init__`, over counts that are numbers already.
unfoldable pub actual_usage : ActualTokenUsage → Result ActualTokenUsage
unfolding tokens_of
actual_usage u =
    if any (λ c. ltb 0 (tokens_of u c)) token_classes
    then ok u
    else err CostError.actual_usage_required

pub record Decimal : Type 1 where
  pub Number : Type 0
  pub of_count : ℕ → Number
  pub add : Number → Number → Number
  pub multiply : Number → Number → Number
  pub divide : Number → Number → Number
  pub same : Number → Number → Bool

module _ (d : Decimal) where
  open d use {Number, of_count, add, multiply, divide, same}

  -- The fields that the calculation reads.
  pub record EffectiveRate : Type 0 where
    pub rate_card_version : Text
    pub token_class : TokenClass
    pub unit_quantity : Number
    pub unit_price : Number
    pub currency : Text
    pub usd_conversion_rate : Number
    pub rounding_rule : Text

  pub record CalculatedModelCost : Type 0 where
    pub cost_id : Text
    pub rate_card_version : Text
    pub usage : ActualTokenUsage
    pub input_amount : Number
    pub cached_input_amount : Number
    pub reasoning_amount : Number
    pub output_amount : Number
    pub amount_currency : Number
    pub currency : Text
    pub amount_usd : Number
    pub credits : Option Number

  -- `rates_by_class.get(token_class, [])`: the rates of the version, in their order.
  unfoldable pub matching_rates : Text → TokenClass → List EffectiveRate → List EffectiveRate
  unfolding TokenClass-discrete
  matching_rates version c rates =
      keep (λ (r : EffectiveRate). r.rate_card_version == version && r.token_class == c) rates

  the_only_rate : List EffectiveRate → Result EffectiveRate
  the_only_rate [] = err CostError.unknown_rate_card
  the_only_rate (r ∷ []) = ok r
  the_only_rate (r ∷ q ∷ rs) = err CostError.unknown_rate_card

  -- One round of the selection: nothing for an unused class, and otherwise the one rate.
  unfoldable pub select_one :
      Text → ActualTokenUsage → List EffectiveRate → TokenClass → Result (Option EffectiveRate)
  unfolding the_only_rate tokens_of
  select_one version u rates c =
      if tokens_of u c == 0
      then ok none
      else do r ← the_only_rate (matching_rates version c rates); ok (some r)

  -- `selected_rates`
  pub record Selection : Type 0 where
    pub of_input : Option EffectiveRate
    pub of_cached : Option EffectiveRate
    pub of_reasoning : Option EffectiveRate
    pub of_output : Option EffectiveRate

  unfoldable pub select_rates : Text → ActualTokenUsage → List EffectiveRate → Result Selection
  select_rates version u rates = do
    i ← select_one version u rates TokenClass.input
    c ← select_one version u rates TokenClass.cached_input
    r ← select_one version u rates TokenClass.reasoning
    o ← select_one version u rates TokenClass.output
    ok (record { of_input = i; of_cached = c; of_reasoning = r; of_output = o })

  add_rate : Option EffectiveRate → List EffectiveRate → List EffectiveRate
  add_rate none rs = rs
  add_rate (some r) rs = r ∷ rs

  -- `selected_rates.values()`
  unfoldable pub selected : Selection → List EffectiveRate
  unfolding add_rate
  selected s =
      add_rate s.of_input (add_rate s.of_cached (add_rate s.of_reasoning (add_rate s.of_output [])))

  -- The three sets have one element each.
  unfoldable pub agrees : EffectiveRate → EffectiveRate → Bool
  unfolding text_beq
  agrees a b =
      a.currency == b.currency
      && (same a.usd_conversion_rate b.usd_conversion_rate && a.rounding_rule == b.rounding_rule)

  unfoldable pub common_terms : List EffectiveRate → Result EffectiveRate
  common_terms [] = err CostError.unknown_rate_card
  common_terms (r ∷ rs) = if all (agrees r) rs then ok r else err CostError.unknown_rate_card

  -- `(Decimal(count) / unit_quantity) * unit_price`, and zero for an unused class.
  unfoldable pub amount_of : ℕ → Option EffectiveRate → Number
  amount_of n none = of_count 0
  amount_of n (some r) = multiply (divide (of_count n) r.unit_quantity) r.unit_price

  -- `stable_cost_id`
  unfoldable pub stable_id : Option Text → Text → Text → Text
  stable_id none call_id version = codes "model-cost:" ++ (call_id ++ (codes ":" ++ version))
  stable_id (some id) call_id version =
      if is_nonempty id then id else codes "model-cost:" ++ (call_id ++ (codes ":" ++ version))

  -- The record that `calculate_from_rates` returns.
  unfoldable pub cost_of :
      Text → Text → ActualTokenUsage → Selection → EffectiveRate → CalculatedModelCost
  unfolding amount_of text_beq tokens_of
  cost_of id version u s terms =
      let i = amount_of u.input_tokens s.of_input in
      let c = amount_of u.cached_input_tokens s.of_cached in
      let r = amount_of u.reasoning_tokens s.of_reasoning in
      let o = amount_of u.output_tokens s.of_output in
      let total = add (add (add (add (of_count 0) i) c) r) o in
      record {
        cost_id = id;
        rate_card_version = version;
        usage = u;
        input_amount = i;
        cached_input_amount = c;
        reasoning_amount = r;
        output_amount = o;
        amount_currency = total;
        currency = terms.currency;
        amount_usd = multiply total terms.usd_conversion_rate;
        credits =
            if contains (codes "CREDIT" ∷ codes "CREDITS" ∷ []) terms.currency
            then some total
            else none;
      }

  -- `calculate_from_rates` behind the tests of its arguments.
  unfoldable pub price :
      Text → Text → ActualTokenUsage → List EffectiveRate → Option Text → Result CalculatedModelCost
  unfolding stable_id is_blank
  price call_id version u rates cost_id = do
    s ← select_rates version u rates
    terms ← common_terms (selected s)
    let id = stable_id cost_id call_id version
    require (not (is_blank id)) CostError.blank_value
    ok (cost_of id version u s terms)

  -- `calculate_from_rates`. The identifiers that must not be blank come as a list, `call_id` apart.
  unfoldable pub calculate_from_rates :
      Text
      → List Text
      → Text
      → ActualTokenUsage
      → Text
      → List EffectiveRate
      → Option Text
      → Result CalculatedModelCost
  unfolding text_beq is_blank
  calculate_from_rates call_id identifiers version u usage_status rates cost_id = do
    require (usage_status == codes "actual") CostError.actual_usage_required
    require (all (λ s. not (is_blank s)) (call_id ∷ version ∷ identifiers)) CostError.blank_value
    price call_id version u rates cost_id
