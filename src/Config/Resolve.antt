-- ===== src/Config/Resolve.antt =====
-- `Config::resolve` of crates/twl-config/src/config.rs. `none` in the first place is a panic: an
-- index out of bounds.
use Prim.Native.String.{String}
use token_weasel.Prelude.{
  ℕ, Bool, true, false, ◌||◌, List, [], ◌∷◌, Option, none, some, if◌then◌else◌, unwrap_or, and_then,
  is_some,
}
use token_weasel.Prelude.Result.{Result, ok, err, ◌>>=◌, map_err}
use token_weasel.Provider.Models.{llama_cpp}
use token_weasel.Pricing.{Pricing, sanitized, default_pricing}
use token_weasel.Config.{
  ConfigError, config_file, bare, validation, EnvVar, not_present, not_unicode, set_to, Cli,
  ConfigFile, BackendConfigFile, BackendConfig, Config, Outside,
}
use token_weasel.Config.Scalars.{
  resolve_fair_queue, resolve_retention_days, resolve_config_path, resolve_string,
  resolve_max_concurrency, resolve_upstream, resolve_bind, resolve_dashboard_auth,
  resolve_metrics_token, resolve_gpu_watts, resolve_load_balancing,
}
use token_weasel.Config.Dashboard.{resolve_dashboard}
use token_weasel.Config.Tls.{resolve_tls}
use token_weasel.Config.Backends.{display, resolve_backends}

-- `std::env::var(…).is_ok()`
abbrev pub is_set : EnvVar → Bool
is_set (set_to s) = true
is_set not_present = false
is_set not_unicode = false

module _ {F Ip : Type 0} (w : Outside F Ip) where
  abbrev load_config_file : String → Result ConfigError (ConfigFile F)
  load_config_file path =
      map_err bare (w.read_to_string path) >>= λ text. map_err bare (w.from_json text)

  abbrev at_path : String → ConfigError → ConfigError
  at_path path (bare m) = config_file path m
  at_path path e = config_file path (display e)

  abbrev load_named : String → Result ConfigError (Option (ConfigFile F))
  load_named path = map_err (at_path path) (load_config_file path) >>= λ file. ok (some file)

  abbrev pub load_file : Option String → Result ConfigError (Option (ConfigFile F))
  load_file (some path) = load_named path
  load_file none = if w.exists "config.json" then load_named "config.json" else ok none

  abbrev sanitized_pricing : Option (Pricing F) → Pricing F
  sanitized_pricing none = default_pricing w.floats
  sanitized_pricing (some p) = sanitized w.floats p

  -- the fields that both modes resolve alike, once the backends are there
  unfoldable pub assemble :
      Cli
      → Option (ConfigFile F)
      → ℕ
      → Bool
      → BackendConfig F
      → List (BackendConfig F)
      → Result ConfigError (Config F Ip)
  assemble cli file retention_days flat first rest = do
    load_balancing ← resolve_load_balancing w (and_then file (λ c. c.load_balancing))
    dashboard ← resolve_dashboard w (and_then file (λ c. c.dashboard))
    max_concurrency ←
        resolve_max_concurrency w cli.max_concurrency (and_then file (λ c. c.max_concurrency))
    tls ← resolve_tls w cli.tls cli.tls_cert cli.tls_key (and_then file (λ c. c.tls))
    fair_queue ← resolve_fair_queue w (and_then file (λ c. c.fair_queue))
    metrics_token ← resolve_metrics_token w (and_then file (λ c. c.metrics_token))
    ok (record {
      bind =
          resolve_bind w cli.host cli.port (and_then file (λ c. c.host))
            (and_then file (λ c. c.port));
      upstream = first.upstream;
      db_path = resolve_string w cli.db "DB_PATH" (and_then file (λ c. c.db_path)) "proxydb.db";
      pricing = sanitized_pricing (and_then file (λ c. c.pricing));
      max_concurrency = max_concurrency;
      gpu_watts = first.gpu_watts;
      backends = first ∷ rest;
      flat_passthrough = flat;
      dashboard_auth =
          resolve_dashboard_auth w (and_then file (λ c. c.dashboard_user))
            (and_then file (λ c. c.dashboard_password));
      public_usage = unwrap_or (and_then file (λ c. c.public_usage)) false;
      require_api_key = unwrap_or (and_then file (λ c. c.require_api_key)) true;
      load_balancing = load_balancing;
      fair_queue = fair_queue;
      dashboard = dashboard;
      retention_days = retention_days;
      tls = tls;
      metrics_token = metrics_token;
    })

  -- `backends[0]` of a list that `resolve_backends` gives
  abbrev assemble_backends :
      Cli
      → Option (ConfigFile F)
      → ℕ
      → List (BackendConfig F)
      → Option (Result ConfigError (Config F Ip))
  assemble_backends cli file days [] = none
  assemble_backends cli file days (b ∷ bs) = some (assemble cli file days false b bs)

  abbrev pub on_backends :
      Cli
      → Option (ConfigFile F)
      → ℕ
      → Result ConfigError (List (BackendConfig F))
      → Option (Result ConfigError (Config F Ip))
  on_backends cli file days (err e) = some (err e)
  on_backends cli file days (ok bs) = assemble_backends cli file days bs

  unfoldable pub backends_mode :
      Cli
      → Option (ConfigFile F)
      → ℕ
      → List (BackendConfigFile F)
      → Option (Result ConfigError (Config F Ip))
  unfolding assemble
  backends_mode cli file days entries =
      if is_some cli.upstream
      then some (
          err
            (validation "the --upstream flag is not supported when a backends array is configured"))
      else if is_set (w.var "UPSTREAM_URL")
      then some (
          err (
            validation "UPSTREAM_URL env var is not supported when a backends array is configured"))
      else on_backends cli file days (resolve_backends w entries)

  abbrev pub flat_backend : String → F → BackendConfig F
  flat_backend upstream gpu_watts = record {
    upstream = upstream;
    provider = llama_cpp;
    api_key = none;
    extra_headers = [];
    models = [];
    models_poll_secs = some 30;
    gpu_watts = gpu_watts;
    model_types = [];
    model_filter = none;
  }

  unfoldable pub flat_mode : Cli → Option (ConfigFile F) → ℕ → Result ConfigError (Config F Ip)
  unfolding assemble
  flat_mode cli file days = do
    gpu_watts ← resolve_gpu_watts w (and_then file (λ c. c.gpu_watts))
    upstream ← resolve_upstream w cli.upstream (and_then file (λ c. c.upstream))
    assemble cli file days true (flat_backend upstream gpu_watts) []

  abbrev pub has_flat_fields : Option (ConfigFile F) → Bool
  has_flat_fields none = false
  has_flat_fields (some c) = is_some c.upstream || is_some c.gpu_watts

  abbrev pub by_mode :
      Cli
      → Option (ConfigFile F)
      → ℕ
      → Option (List (BackendConfigFile F))
      → Option (Result ConfigError (Config F Ip))
  by_mode cli file days none = some (flat_mode cli file days)
  by_mode cli file days (some entries) =
      if has_flat_fields file
      then some (
          err
            (validation "backends array and flat upstream/gpu_watts fields are mutually exclusive"))
      else backends_mode cli file days entries

  abbrev pub with_days :
      Cli → Option (ConfigFile F) → Result ConfigError ℕ → Option (Result ConfigError (Config F Ip))
  with_days cli file (err e) = some (err e)
  with_days cli file (ok days) = by_mode cli file days (and_then file (λ c. c.backends))

  abbrev pub with_file :
      Cli → Result ConfigError (Option (ConfigFile F)) → Option (Result ConfigError (Config F Ip))
  with_file cli (err e) = some (err e)
  with_file cli (ok file) =
      with_days cli file (resolve_retention_days w (and_then file (λ c. c.retention_days)))

  unfoldable pub resolve : Cli → Option (Result ConfigError (Config F Ip))
  unfolding backends_mode flat_mode
  resolve cli = with_file cli (load_file (resolve_config_path w cli.config))
