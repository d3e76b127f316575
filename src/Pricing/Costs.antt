-- ===== src/Pricing/Costs.antt =====
-- What `cost` of crates/twl-pricing/src/lib.rs promises of every price table.
use Prim.Native.String.{String}
use token_weasel.Prelude.{◌≡◌, refl, true, false, List, [], ◌∷◌, Option, none, some, or_else, arith}
use token_weasel.Prelude.Int.{ℤ}
use token_weasel.Prelude.Text.{String-discrete, before_sep}
use token_weasel.Prelude.Assoc.{lookup}
use token_weasel.Pricing.{
  ModelPrice, Cost, Pricing, Floats, clamp_finite_non_negative, normalize_rate, sanitized_price,
  sanitized_models, safe_unit, sanitized, priced, price_of, cost_at, cost,
}

-- what the constants are: 0.0 and 1000000.0
pub record HasConstants {F : Type 0} (f : Floats F) : Type 0 where
  pub zero_finite : f.is_finite f.zero ≡ true
  pub zero_sign : f.is_negative f.zero ≡ false
  pub million_finite : f.is_finite f.million ≡ true
  pub million_positive : f.is_positive f.million ≡ true

module _ {F : Type 0} (f : Floats F) (h : HasConstants f) where
  abbrev IsMoney : F → Type 0
  IsMoney v = (f.is_finite v ≡ true) × (f.is_negative v ≡ false)

  abbrev pub IsBillable : Cost F → Type 0
  IsBillable c = IsMoney c.input × IsMoney c.input_cached × IsMoney c.output × IsMoney c.total

  clamp-IsMoney : (v : F) → IsMoney (clamp_finite_non_negative f v)
  unfolding clamp_finite_non_negative
  clamp-IsMoney v = ground (arith, h.zero_finite, h.zero_sign)

  cost_at-IsBillable :
      (unit : F) (input output cached : ℤ) (p : Option (ModelPrice F))
      → IsBillable (cost_at f unit input output cached p)
  unfolding priced
  cost_at-IsBillable unit input output cached none = ground (arith, h.zero_finite, h.zero_sign)
  cost_at-IsBillable unit input output cached (some p) =
      (clamp-IsMoney _, clamp-IsMoney _, clamp-IsMoney _, clamp-IsMoney _)

  -- Whatever the table, the model and the counts, every part of a cost is finite and not negative.
  pub cost-IsBillable :
      (p : Pricing F) (model : String) (input output cached : ℤ)
      → IsBillable (cost f p model input output cached)
  unfolding cost
  cost-IsBillable p model input output cached = cost_at-IsBillable _ input output cached _

  normalize_rate_twice : (v : F) → normalize_rate f (normalize_rate f v) ≡ normalize_rate f v
  unfolding normalize_rate
  normalize_rate_twice v = ground (arith, h.zero_finite, h.zero_sign)

  safe_unit_twice : (u : F) → safe_unit f (safe_unit f u) ≡ safe_unit f u
  unfolding safe_unit
  safe_unit_twice u = ground (arith, h.million_finite, h.million_positive)

  sanitized_rates :
      (p : ModelPrice F)
      → (normalize_rate f (sanitized_price f p).input ≡ normalize_rate f p.input)
        × (normalize_rate f (sanitized_price f p).output ≡ normalize_rate f p.output)
        × (normalize_rate f (sanitized_price f p).input_cached ≡ normalize_rate f p.input_cached)
  unfolding sanitized_price
  sanitized_rates p = ground (
    arith,
    normalize_rate_twice p.input,
    normalize_rate_twice p.output,
    normalize_rate_twice p.input_cached,
  )

  priced-sanitized :
      (unit : F) (p : ModelPrice F) (input output cached : ℤ)
      → priced f unit (sanitized_price f p) input output cached
        ≡ priced f unit p input output cached
  unfolding priced
  priced-sanitized unit p input output cached =
      let (i, o, c) = sanitized_rates p in rw (i, o, c) refl

  abbrev sanitized_option : Option (ModelPrice F) → Option (ModelPrice F)
  sanitized_option none = none
  sanitized_option (some p) = some (sanitized_price f p)

  lookup-sanitized :
      (model : String) (models : List (String × ModelPrice F))
      → lookup String-discrete model (sanitized_models f models)
        ≡ sanitized_option (lookup String-discrete model models)
  unfolding lookup sanitized_models
  lookup-sanitized model [] = refl
  lookup-sanitized model ((name, p) ∷ ps) = ground (arith, lookup-sanitized model ps)

  cost_at-sanitized :
      (unit : F) (input output cached : ℤ) (a b : Option (ModelPrice F))
      → cost_at f unit input output cached (or_else (sanitized_option a) (sanitized_option b))
        ≡ cost_at f unit input output cached (or_else a b)
  cost_at-sanitized unit input output cached none none = refl
  cost_at-sanitized unit input output cached none (some p) =
      priced-sanitized unit p input output cached
  cost_at-sanitized unit input output cached (some p) b =
      priced-sanitized unit p input output cached

  -- Sanitizing a price table at start-up changes no cost that is computed with it later.
  pub cost-sanitized :
      (p : Pricing F) (model : String) (input output cached : ℤ)
      → cost f (sanitized f p) model input output cached ≡ cost f p model input output cached
  unfolding cost sanitized price_of
  cost-sanitized p model input output cached =
      rw
        (
          safe_unit_twice p.unit,
          lookup-sanitized model p.models,
          lookup-sanitized (before_sep b':' model) p.models,
        )
        (cost_at-sanitized (safe_unit f p.unit) input output cached _ _)
