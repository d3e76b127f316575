-- ===== src/Tests/Configuring.antt =====
-- The configuration of crates/twl-config/src/config.rs and the costs of
-- crates/twl-pricing/src/lib.rs at concrete inputs, with whole numbers for floats.
use Prim.Native.String.{String}
use token_weasel.Prelude.{
  ℕ, ◌≡◌, refl, Bool, true, false, List, [], ◌∷◌, Option, none, some, ltb, if◌then◌else◌,
}
use token_weasel.Prelude.Int.{ℤ, pos, negsuc}
use token_weasel.Prelude.Text.{◌=ₛ◌, is_empty}
use token_weasel.Prelude.Result.{Result, ok, err}
use token_weasel.Pricing.{Pricing, Floats, sanitized, cost}
use token_weasel.Pricing.Costs.{HasConstants, IsBillable, cost-IsBillable, cost-sanitized}
use token_weasel.Config.{
  Cli, Config, ConfigError, Outside, EnvVar, set_to, not_present, TlsConfig, Component, root_dir,
  normal, parent_dir,
}
use token_weasel.Config.Scalars.{
  resolve_config_path, resolve_retention_days, resolve_gpu_watts, resolve_upstream,
  resolve_load_balancing, resolve_max_concurrency, resolve_fair_queue, resolve_metrics_token,
}
use token_weasel.Config.Dashboard.{resolve_dashboard}
use token_weasel.Config.Resolve.{resolve}
use token_weasel.Config.Tls.{resolve_tls}
use token_weasel.Config.Tls.Distinct.{IsUsable, resolve_tls-distinct}

-- integers for floats, none of them infinite
abbrev is_negative : ℤ → Bool
is_negative (pos n) = false
is_negative (negsuc n) = true

abbrev is_positive : ℤ → Bool
is_positive (pos n) = ltb 0 n
is_positive (negsuc n) = false

abbrev is_below_one : ℤ → Bool
is_below_one (pos n) = ltb n 1
is_below_one (negsuc n) = true

abbrev ne : ℤ → ℤ → Bool
ne a b = true

abbrev first : ℤ → ℤ → ℤ
first a b = a

abbrev of_i64 : ℤ → ℤ
of_i64 a = a

abbrev is_finite : ℤ → Bool
is_finite a = true

abbrev whole : Floats ℤ
whole = record {
  is_finite = is_finite;
  is_negative = is_negative;
  is_positive = is_positive;
  ne = ne;
  zero = pos 0;
  million = pos 1_000_000;
  add = first;
  mul = first;
  div = first;
  of_i64 = of_i64;
}

whole-HasConstants : HasConstants whole
whole-HasConstants = record {
  zero_finite = refl;
  zero_sign = refl;
  million_finite = refl;
  million_positive = refl;
}

abbrev prices : Pricing ℤ
prices = record {
  currency = "USD";
  unit = pos 1000;
  models = ("qwen", record { input = pos 2; output = negsuc 3; input_cached = pos 1 }) ∷ [];
}

cost-IsBillable_example :
    IsBillable whole whole-HasConstants (cost whole prices "qwen:8b" (pos 100) (pos 20) (pos 300))
cost-IsBillable_example =
    cost-IsBillable whole whole-HasConstants prices "qwen:8b" (pos 100) (pos 20) (pos 300)

cost-sanitized_example :
    cost whole (sanitized whole prices) "qwen:8b" (pos 100) (pos 20) (pos 30)
    ≡ cost whole prices "qwen:8b" (pos 100) (pos 20) (pos 30)
cost-sanitized_example =
    cost-sanitized whole whole-HasConstants prices "qwen:8b" (pos 100) (pos 20) (pos 30)

-- an environment that sets the address, and a file system with two files
abbrev var : String → EnvVar
var name = if name =ₛ "BIND_ADDR" then set_to "0.0.0.0:80" else not_present

abbrev path_of : String → List Component
path_of path =
    if path =ₛ "tls/cert.pem"
    then root_dir ∷ normal "tls" ∷ normal "cert.pem" ∷ []
    else root_dir ∷ normal "tls" ∷ normal "old" ∷ parent_dir ∷ normal "key.pem" ∷ []

abbrev pub here : Outside ℤ ℕ
here = record {
  var = var;
  max_permits = 1000;
  floats = whole;
  is_below_one = is_below_one;
  default_factor = pos 2;
  print_f64 = λ v. "f";
  print_u64 = λ n. "n";
  parse_usize = λ s. none;
  parse_url = λ s. ok (record {
    scheme = "http";
    host_str = some "127.0.0.1";
    query = none;
    fragment = none;
    before_path = "http://127.0.0.1:8080";
    path = "/";
  });
  parse_ip = λ s. none;
  to_lowercase = λ s. s;
  header_name = λ s. some s;
  header_value = λ s. true;
  sort_headers = λ hs. hs;
  exists = λ p. false;
  read_to_string = λ p. err "no such file";
  from_json = λ t. err "no object";
  absolute = λ p. ok (path_of p);
  try_exists = λ p. ok false;
  canonicalize = λ p. err "no such file";
}

abbrev cli : Cli
cli = record {
  port = some 3000;
  host = none;
  upstream = none;
  db = none;
  max_concurrency = some 4;
  config = none;
  tls = some true;
  tls_cert = none;
  tls_key = none;
}

abbrev is_accepted : Option (Result ConfigError (Config ℤ ℕ)) → Bool
is_accepted (some (ok c)) = true
is_accepted (some (err e)) = false
is_accepted none = false

resolve_run : is_accepted (resolve here cli) ≡ true
unfolding resolve is_empty resolve_config_path resolve_retention_days resolve_gpu_watts
    resolve_upstream resolve_load_balancing resolve_dashboard resolve_max_concurrency resolve_tls
    resolve_fair_queue resolve_metrics_token
resolve_run = refl

abbrev tls : TlsConfig
tls = record {
  enabled = true;
  cert_path = "tls/cert.pem";
  key_path = "tls/key.pem";
  hostnames = "localhost" ∷ [];
}

tls_run : resolve_tls here (some true) none none none ≡ ok tls
unfolding resolve_tls is_empty
tls_run = refl

resolve_tls-distinct_example : IsUsable here tls
resolve_tls-distinct_example = resolve_tls-distinct here (some true) none none none tls tls_run refl
