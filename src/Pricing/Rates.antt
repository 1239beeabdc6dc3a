-- ===== src/Pricing/Rates.antt =====
-- Credit rates: internal/types/policy.go, the pricing of internal/types/model.go, and the costs of
-- internal/proxy/executor.go and image_extra_usage_cost.go. The operations on `float64` are a parameter.
-- Sums and products of token counts wrap as `int64`.
use modelserver.Prelude.{String, Bool, ◌&&◌, ◌||◌, List, Option, none, some, str_eq, if◌then◌else◌}
use modelserver.Prelude.Int.{ℤ, pos, ◌+ℤ◌, ◌-ℤ◌, ◌*ℤ◌, ◌/ℤ◌, ltb_ℤ, leb_ℤ, wrap_int64}
use modelserver.Types.{map_get}

-- The operations on `float64`: a conversion, a product, a sum, the test `x <= 0`, and
-- `int64(math.Ceil(x))`.
pub record Arith (F : Type 0) : Type 0 where
  pub zero : F
  pub of_int : ℤ → F
  pub times : F → F → F
  pub plus : F → F → F
  pub not_positive : F → Bool
  pub ceil_int : F → ℤ

module _ (F : Type 0) where
  pub record LongContextCreditRate : Type 0 where
    pub threshold_input_tokens : ℤ
    pub input_multiplier : F
    pub output_multiplier : F

  pub record CreditRate : Type 0 where
    pub input_rate : F
    pub output_rate : F
    pub cache_creation_rate : F
    pub cache_read_rate : F
    pub long_context : Option LongContextCreditRate

  pub record ImageCreditRate : Type 0 where
    pub text_input_rate : F
    pub text_cached_input_rate : F
    pub text_output_rate : F
    pub image_input_rate : F
    pub image_cached_input_rate : F
    pub image_output_rate : F

  -- The fields of `Model` that admission and pricing read.
  pub record Model : Type 0 where
    pub name : String
    pub aliases : List String
    pub publisher : String
    pub status : String
    pub extra_usage_only : Bool
    pub default_credit_rate : Option CreditRate
    pub default_image_credit_rate : Option ImageCreditRate

  -- The rates of a policy.
  pub record PolicyRates : Type 0 where
    pub model_credit_rates : List (String × CreditRate)
    pub client_model_credit_rates : List (String × List (String × CreditRate))

pub record TokenUsage : Type 0 where
  pub input_tokens : ℤ
  pub output_tokens : ℤ
  pub cache_creation_tokens : ℤ
  pub cache_read_tokens : ℤ

pub record ImageTokenUsage : Type 0 where
  pub input_tokens : ℤ
  pub output_tokens : ℤ
  pub cached_input_tokens : ℤ
  pub text_input_tokens : ℤ
  pub image_input_tokens : ℤ
  pub text_output_tokens : ℤ
  pub image_output_tokens : ℤ

-- Sums, differences and products of `int64`.
abbrev pub add_int64 : ℤ → ℤ → ℤ
add_int64 a b = wrap_int64 (a +ℤ b)

abbrev pub sub_int64 : ℤ → ℤ → ℤ
sub_int64 a b = wrap_int64 (a -ℤ b)

abbrev pub mul_int64 : ℤ → ℤ → ℤ
mul_int64 a b = wrap_int64 (a *ℤ b)

-- The input of a request: fresh, written to a cache, and read from it.
abbrev pub total_input : TokenUsage → ℤ
total_input u = add_int64 (add_int64 u.input_tokens u.cache_creation_tokens) u.cache_read_tokens

-- How the input tokens of an image request are billed: the cached ones, shared out among text and
-- images, and the others.
pub record ImageInput : Type 0 where
  pub cached_text : ℤ
  pub cached_image : ℤ
  pub billed_text : ℤ
  pub billed_image : ℤ

abbrev pub at_least_0 : ℤ → ℤ
at_least_0 n = if ltb_ℤ n (pos 0) then pos 0 else n

unfoldable pub image_input : ImageTokenUsage → ImageInput
image_input u =
    let total = add_int64 u.text_input_tokens u.image_input_tokens in
    let shared = ltb_ℤ (pos 0) total && ltb_ℤ (pos 0) u.cached_input_tokens in
    let text =
      if shared
      then wrap_int64 (mul_int64 u.cached_input_tokens u.text_input_tokens /ℤ total)
      else pos 0 in
    let image = if shared then sub_int64 u.cached_input_tokens text else pos 0 in
    record {
      cached_text = text;
      cached_image = image;
      billed_text = at_least_0 (sub_int64 u.text_input_tokens text);
      billed_image = at_least_0 (sub_int64 u.image_input_tokens image);
    }

module _ {F : Type 0} (arith : Arith F) where
  open arith use {zero, of_int, times, plus, not_positive, ceil_int}

  -- A rate times a number of tokens.
  abbrev pub charge : F → ℤ → F
  charge rate n = times rate (of_int n)

  abbrev scale : CreditRate F → LongContextCreditRate F → CreditRate F
  scale rate lc = record rate {
    input_rate = times rate.input_rate lc.input_multiplier;
    cache_creation_rate = times rate.cache_creation_rate lc.input_multiplier;
    cache_read_rate = times rate.cache_read_rate lc.input_multiplier;
    output_rate = times rate.output_rate lc.output_multiplier;
  }

  abbrev apply_lc : CreditRate F → ℤ → Option (LongContextCreditRate F) → CreditRate F
  apply_lc rate total none = rate
  apply_lc rate total (some lc) =
      if leb_ℤ lc.threshold_input_tokens (pos 0)
        || leb_ℤ total lc.threshold_input_tokens
        || not_positive lc.input_multiplier
        || not_positive lc.output_multiplier
      then rate
      else scale rate lc

  -- `ApplyLongContextCreditRate`
  unfoldable pub apply_long_context_credit_rate : CreditRate F → ℤ → CreditRate F
  apply_long_context_credit_rate rate total = apply_lc rate total rate.long_context

  -- The credits of a usage at a rate.
  unfoldable pub credits_at : CreditRate F → TokenUsage → F
  unfolding apply_long_context_credit_rate
  credits_at rate u =
      let r = apply_long_context_credit_rate rate (total_input u) in
      plus
        (plus (plus (charge r.input_rate u.input_tokens) (charge r.output_rate u.output_tokens))
          (charge r.cache_creation_rate u.cache_creation_tokens))
        (charge r.cache_read_rate u.cache_read_tokens)

  abbrev pub client_override : PolicyRates F → String → String → Option (CreditRate F)
  client_override p client model =
      if str_eq client "" then none else elim (map_get p.client_model_credit_rates client) [
        | none ↦ none
        | some per_client ↦ map_get per_client model
      ]

  abbrev or_try : Option (CreditRate F) → Option (CreditRate F) → Option (CreditRate F)
  or_try (some r) later = some r
  or_try none later = later

  abbrev credits_or_zero : Option (CreditRate F) → TokenUsage → F
  credits_or_zero none u = zero
  credits_or_zero (some rate) u = credits_at rate u

  -- `ComputeCreditsForClient`: the four steps by which a rate is looked for.
  unfoldable pub compute_credits_for_client :
      PolicyRates F → String → String → Option (CreditRate F) → TokenUsage → F
  compute_credits_for_client p model client catalog_default u =
      let step1 = client_override p client model in
      let step2 = or_try step1 (map_get p.model_credit_rates model) in
      let step3 = or_try step2 catalog_default in
      let step4 = or_try step3 (map_get p.model_credit_rates "_default") in credits_or_zero step4 u

  abbrev pub round_up : F → ℤ
  round_up credits = if not_positive credits then pos 0 else ceil_int credits

  abbrev cost_of : Option (CreditRate F) → TokenUsage → Option ℤ
  cost_of none u = none
  cost_of (some rate) u = some (round_up (credits_at rate u))

  -- `computeExtraUsageCostCredits`; `none` is the missing rate.
  unfoldable pub compute_extra_usage_cost_credits : Option (Model F) → TokenUsage → Option ℤ
  compute_extra_usage_cost_credits none u = none
  compute_extra_usage_cost_credits (some m) u = cost_of m.default_credit_rate u

  unfoldable pub image_credits_at : ImageCreditRate F → ImageTokenUsage → F
  unfolding image_input
  image_credits_at r u =
      let i = image_input u in
      plus
        (plus
          (plus
            (plus
              (plus (charge r.text_input_rate i.billed_text)
                (charge r.image_input_rate i.billed_image))
              (charge r.text_cached_input_rate i.cached_text))
            (charge r.image_cached_input_rate i.cached_image))
          (charge r.text_output_rate u.text_output_tokens))
        (charge r.image_output_rate u.image_output_tokens)

  abbrev image_round_up : F → ℤ
  image_round_up credits =
      if not_positive credits
      then pos 0
      else if ltb_ℤ (ceil_int credits) (pos 1)
      then pos 1
      else ceil_int credits

  abbrev image_cost_of : Option (ImageCreditRate F) → ImageTokenUsage → Option ℤ
  image_cost_of none u = none
  image_cost_of (some rate) u = some (image_round_up (image_credits_at rate u))

  -- `computeImageExtraUsageCostCredits`
  unfoldable pub compute_image_extra_usage_cost_credits :
      Option (Model F) → ImageTokenUsage → Option ℤ
  compute_image_extra_usage_cost_credits none u = none
  compute_image_extra_usage_cost_credits (some m) u = image_cost_of m.default_image_credit_rate u
