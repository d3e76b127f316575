-- ===== src/Pricing.antt =====
-- crates/twl-pricing/src/lib.rs. A float and its operations are parameters: `F`, the comparisons
-- with zero, the arithmetic and the conversion of an i64. Warnings are left out.
pub mod Costs
use Prim.Native.String.{String}
use token_weasel.Prelude.{
  Bool, true, false, not, ◌&&◌, ◌||◌, List, [], ◌∷◌, Option, none, some, if◌then◌else◌, or_else,
}
use token_weasel.Prelude.Int.{ℤ, pos, max_ℤ, saturating_sub}
use token_weasel.Prelude.Text.{String-discrete, before_sep}
use token_weasel.Prelude.Assoc.{lookup}

pub record ModelPrice (F : Type 0) : Type 0 where
  pub input : F
  pub output : F
  pub input_cached : F

pub record Cost (F : Type 0) : Type 0 where
  pub input : F
  pub input_cached : F
  pub output : F
  pub total : F

pub record Pricing (F : Type 0) : Type 0 where
  pub currency : String
  pub unit : F
  pub models : List (String × ModelPrice F)

-- The operations of f64 that the program uses. `is_negative x` is `x < 0.0`, `is_positive x` is
-- `x > 0.0`; all are false of NaN. `ne` is `!=`.
pub record Floats (F : Type 0) : Type 0 where
  pub is_finite : F → Bool
  pub is_negative : F → Bool
  pub is_positive : F → Bool
  pub ne : F → F → Bool
  pub zero : F
  pub million : F
  pub add : F → F → F
  pub mul : F → F → F
  pub div : F → F → F
  pub of_i64 : ℤ → F

module _ {F : Type 0} (f : Floats F) where
  -- For a finite `v`, `v >= 0.0` is `!(v < 0.0)`.
  unfoldable pub clamp_finite_non_negative : F → F
  clamp_finite_non_negative v = if f.is_finite v && not (f.is_negative v) then v else f.zero

  unfoldable pub normalize_rate : F → F
  normalize_rate value = if not (f.is_finite value) || f.is_negative value then f.zero else value

  abbrev pub default_pricing : Pricing F
  default_pricing = record { currency = "USD"; unit = f.million; models = [] }

  unfoldable pub sanitized_price : ModelPrice F → ModelPrice F
  unfolding normalize_rate
  sanitized_price p =
      let i = normalize_rate p.input in
      let o = normalize_rate p.output in
      let c = normalize_rate p.input_cached in
      if f.ne i p.input || f.ne o p.output || f.ne c p.input_cached
      then record { input = i; output = o; input_cached = c }
      else p

  unfoldable pub sanitized_models : List (String × ModelPrice F) → List (String × ModelPrice F)
  unfolding sanitized_price
  sanitized_models [] = []
  sanitized_models ((name, p) ∷ ps) = (name, sanitized_price p) ∷ sanitized_models ps

  unfoldable pub safe_unit : F → F
  safe_unit unit = if f.is_finite unit && f.is_positive unit then unit else f.million

  unfoldable pub sanitized : Pricing F → Pricing F
  unfolding safe_unit sanitized_models
  sanitized p = record p { unit = safe_unit p.unit; models = sanitized_models p.models }

  abbrev no_cost : Cost F
  no_cost = record { input = f.zero; input_cached = f.zero; output = f.zero; total = f.zero }

  unfoldable pub priced : F → ModelPrice F → ℤ → ℤ → ℤ → Cost F
  unfolding clamp_finite_non_negative normalize_rate
  priced unit p input output cached =
      let billable = f.of_i64 (max_ℤ (saturating_sub input cached) (pos 0)) in
      let input_cost =
        clamp_finite_non_negative (f.div (f.mul billable (normalize_rate p.input)) unit) in
      let cached_cost =
        clamp_finite_non_negative
          (f.div (f.mul (f.of_i64 (max_ℤ cached (pos 0))) (normalize_rate p.input_cached)) unit) in
      let output_cost =
        clamp_finite_non_negative
          (f.div (f.mul (f.of_i64 (max_ℤ output (pos 0))) (normalize_rate p.output)) unit) in
      record {
        input = input_cost;
        input_cached = cached_cost;
        output = output_cost;
        total = clamp_finite_non_negative (f.add (f.add input_cost cached_cost) output_cost);
      }

  -- the price of a model, or else of its name in front of the first `:`
  unfoldable pub price_of : String → List (String × ModelPrice F) → Option (ModelPrice F)
  price_of model models =
      or_else (lookup String-discrete model models)
        (lookup String-discrete (before_sep b':' model) models)

  abbrev pub cost_at : F → ℤ → ℤ → ℤ → Option (ModelPrice F) → Cost F
  cost_at unit input output cached none = no_cost
  cost_at unit input output cached (some p) = priced unit p input output cached

  unfoldable pub cost : Pricing F → String → ℤ → ℤ → ℤ → Cost F
  unfolding safe_unit price_of
  cost pricing model input output cached =
      cost_at (safe_unit pricing.unit) input output cached (price_of model pricing.models)
