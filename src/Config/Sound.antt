-- ===== src/Config/Sound.antt =====
-- What every configuration that `Config::resolve` of crates/twl-config/src/config.rs accepts obeys.
pub mod Lists
pub mod Served
pub mod Whole
use Prim.Native.String.{String, len}
use token_weasel.Prelude.{
  ℕ, suc, ◌+◌, ◌*◌, ◌≤◌, ◌<◌, ◌≡◌, refl, sym, ap, ◌∙◌, ◌⊎◌, inl, inr, Bool, true, false, not, ◌&&◌,
  ◌||◌, List, [], ◌∷◌, Option, none, some, Bool-cases, All, leb, ltb, ◌==◌, if◌then◌else◌,
  unwrap_or, or_else, and_then, is_some, is_none, arith,
}
use token_weasel.Prelude.Int.{i64_max}
use token_weasel.Prelude.Text.{is_empty}
use token_weasel.Prelude.Result.{
  Result, ok, err, ◌>>=◌, ◌>>◌, guard, >>=-eq-ok, guard-eq-ok, ok-injective,
}
use token_weasel.Backends.Catalog.{is_in}
use token_weasel.Pricing.{Floats}
use token_weasel.Config.{
  ConfigError, EnvVar, set_to, not_present, not_unicode, LbStrategy, least_loaded,
  LoadBalancingFile, FairQueueConfigFile, DashboardConfigFile, LoadBalancing, FairQueueConfig,
  DashboardConfig, Outside,
}
use token_weasel.Config.Scalars.{
  seconds_per_day, fits_seconds, resolve_fair_queue, resolve_retention_days,
  validate_max_concurrency, parsed_max, env_max, resolve_max_concurrency, if_not_empty,
  checked_token, resolve_metrics_token, resolve_load_balancing, validate_gpu_watts, env,
}
use token_weasel.Config.Dashboard.{
  valid_cards, valid_graphs, check_identifiers, resolve_identifiers, check_max_rows, parse_proxies,
  resolve_dashboard,
}

-- what the constants of the outside are
pub record HasLimits {F Ip : Type 0} (w : Outside F Ip) : Type 0 where
  pub permits : 32 ≤ w.max_permits
  pub factor_finite : w.floats.is_finite w.default_factor ≡ true
  pub factor_large : w.is_below_one w.default_factor ≡ false
  pub zero_finite : w.floats.is_finite w.floats.zero ≡ true
  pub zero_sign : w.floats.is_negative w.floats.zero ≡ false

-- each one known, and none twice
abbrev pub IsDistinct : List String → Type 0
IsDistinct [] = Unit {0}
IsDistinct (x ∷ xs) = (is_in x xs ≡ false) × IsDistinct xs

abbrev pub AreIdentifiers : List String → List String → Type 0
AreIdentifiers valid ids = All (λ id. is_in id valid ≡ true) ids × IsDistinct ids

module _ {F Ip : Type 0} (w : Outside F Ip) where
  pub fair_queue-ok :
      (file : Option FairQueueConfigFile) (c : FairQueueConfig)
      → resolve_fair_queue w file ≡ ok c
      → 0 < c.window_seconds
  unfolding resolve_fair_queue
  fair_queue-ok file c h = ground arith

  pub retention_days-ok :
      (cfg : Option ℕ) (days : ℕ)
      → resolve_retention_days w cfg ≡ ok days
      → (days ≤ i64_max) × (days * seconds_per_day ≤ i64_max)
  unfolding resolve_retention_days fits_seconds
  retention_days-ok cfg days h = ground arith

  validate-ok :
      (value : ℕ) (source : String) (n : ℕ)
      → validate_max_concurrency w value source ≡ ok n
      → (1 ≤ n) × (n ≤ w.max_permits)
  unfolding validate_max_concurrency
  validate-ok value source n h = ground arith

  parsed-ok :
      (parsed : Option ℕ) (n : ℕ) → parsed_max w parsed ≡ ok n → (1 ≤ n) × (n ≤ w.max_permits)
  parsed-ok none n h = cc
  parsed-ok (some value) n h = validate-ok value "MAX_CONCURRENCY" n h

  env_max-ok :
      (v : EnvVar) (cfg : Option ℕ) (n : ℕ)
      → 32 ≤ w.max_permits
      → env_max w v cfg ≡ ok n
      → (1 ≤ n) × (n ≤ w.max_permits)
  env_max-ok (set_to raw) cfg n k h = parsed-ok (w.parse_usize raw) n h
  env_max-ok not_unicode cfg n k h = cc
  env_max-ok not_present none n k h = ground (arith, ok-injective h)
  env_max-ok not_present (some value) n k h = validate-ok value "config file" n h

  pub max_concurrency-ok :
      (cli cfg : Option ℕ) (n : ℕ)
      → 32 ≤ w.max_permits
      → resolve_max_concurrency w cli cfg ≡ ok n
      → (1 ≤ n) × (n ≤ w.max_permits)
  unfolding resolve_max_concurrency
  max_concurrency-ok none cfg n k h = env_max-ok (w.var "MAX_CONCURRENCY") cfg n k h
  max_concurrency-ok (some value) cfg n k h = validate-ok value "CLI" n h

  token-ok : (o : Option String) (t : String) → checked_token w o ≡ ok (some t) → 16 ≤ len t
  token-ok none t h = ground arith
  token-ok (some s) t h = elim (Bool-cases (ltb (len s) 16)) [
    | inl short ↦ absurd (ground arith)
    | inr long ↦ ground arith
  ]

  pub metrics_token-ok :
      (cfg : Option String) (t : String) → resolve_metrics_token w cfg ≡ ok (some t) → 16 ≤ len t
  unfolding resolve_metrics_token
  metrics_token-ok cfg t h = token-ok (if_not_empty (or_else (env w "METRICS_TOKEN") cfg)) t h

  pub load_balancing-ok :
      (file : Option (LoadBalancingFile F)) (c : LoadBalancing F)
      → HasLimits w
      → resolve_load_balancing w file ≡ ok c
      → (w.floats.is_finite c.overload_factor ≡ true) × (w.is_below_one c.overload_factor ≡ false)
  unfolding resolve_load_balancing
  load_balancing-ok none c k h = ground (arith, k.factor_finite, k.factor_large)
  load_balancing-ok (some lb) c k h = ground arith
