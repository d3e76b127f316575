-- ===== src/Config/Scalars.antt =====
-- The `resolve_*` functions of crates/twl-config/src/config.rs for single values.
pub mod Precedence
use Prim.Native.String.{String, count, len}
use token_weasel.Prelude.{
  ℕ, ◌+◌, ◌*◌, Bool, true, false, not, ◌&&◌, ◌||◌, List, [], ◌∷◌, Option, none, some, leb, ltb,
  ◌==◌, if◌then◌else◌, unwrap_or, or_else, and_then, is_some,
}
use token_weasel.Prelude.Int.{i64_max}
use token_weasel.Prelude.Text.{is_empty, append, trim_end_matches, contains, strip_prefix, ◌=ₛ◌}
use token_weasel.Prelude.Result.{Result, ok, err, ◌>>=◌, ◌>>◌, guard, map_err}
use token_weasel.Pricing.{Floats}
use token_weasel.Config.{
  ConfigError, bare, validation, EnvVar, not_present, not_unicode, set_to, LbStrategy, least_loaded,
  LoadBalancingFile, FairQueueConfigFile, ConfigFile, LoadBalancing, FairQueueConfig, Url, Outside,
}

abbrev env_ok : EnvVar → Option String
env_ok (set_to s) = some s
env_ok not_unicode = none
env_ok not_present = none

abbrev pub seconds_per_day : ℕ
seconds_per_day = 86_400

abbrev pub checked : {A : Type 0} → Bool → String → A → Result ConfigError A
checked good message a = if good then ok a else err (validation message)

-- what `retention_days` may be: the conversion and the product fit an i64
unfoldable pub fits_seconds : ℕ → Bool
fits_seconds days = leb days i64_max && leb (days * seconds_per_day) i64_max

abbrev pub if_not_empty : Option String → Option String
if_not_empty none = none
if_not_empty (some s) = if is_empty s then none else some s

abbrev resolved_host : Option String → String
resolved_host host =
    let h = unwrap_or host "127.0.0.1" in
    if contains h ":" && not (is_some (strip_prefix "[" h)) then append "[" (append h "]") else h

module _ {F Ip : Type 0} (w : Outside F Ip) where
  abbrev pub env : String → Option String
  env name = env_ok (w.var name)

  unfoldable pub resolve_fair_queue :
      Option FairQueueConfigFile → Result ConfigError FairQueueConfig
  resolve_fair_queue file =
      let enabled = unwrap_or (and_then file (λ f. f.enabled)) false in
      let window_seconds = unwrap_or (and_then file (λ f. f.window_seconds)) 1800 in
      if window_seconds == 0
      then err (validation "fair_queue.window_seconds must be greater than zero")
      else ok (record { enabled = enabled; window_seconds = window_seconds })

  unfoldable pub resolve_retention_days : Option ℕ → Result ConfigError ℕ
  unfolding fits_seconds
  resolve_retention_days configured =
      let days = unwrap_or configured 90 in
      checked (fits_seconds days)
        (append "retention_days must be at most " (w.print_u64 106_751_991_167_300)) days

  unfoldable pub resolve_config_path : Option String → Option String
  resolve_config_path cli = or_else cli (env "CONFIG_PATH")

  unfoldable pub resolve_string : Option String → String → Option String → String → String
  resolve_string cli name cfg default = unwrap_or (or_else (or_else cli (env name)) cfg) default

  abbrev limit_message : String → String
  limit_message source =
      append "max_concurrency from "
        (append source (append " must be between 1 and " (w.print_u64 w.max_permits)))

  unfoldable pub validate_max_concurrency : ℕ → String → Result ConfigError ℕ
  validate_max_concurrency value source =
      checked (leb 1 value && leb value w.max_permits) (limit_message source) value

  abbrev pub parsed_max : Option ℕ → Result ConfigError ℕ
  parsed_max none = err (
      validation
        (append "MAX_CONCURRENCY must be an integer between 1 and " (w.print_u64 w.max_permits)))
  parsed_max (some value) = validate_max_concurrency value "MAX_CONCURRENCY"

  abbrev file_max : Option ℕ → Result ConfigError ℕ
  file_max none = ok 32
  file_max (some value) = validate_max_concurrency value "config file"

  abbrev pub env_max : EnvVar → Option ℕ → Result ConfigError ℕ
  env_max (set_to raw) cfg = parsed_max (w.parse_usize raw)
  env_max not_unicode cfg = err (
      validation (
        append "MAX_CONCURRENCY must be valid Unicode and an integer between 1 and "
          (w.print_u64 w.max_permits)))
  env_max not_present cfg = file_max cfg

  unfoldable pub resolve_max_concurrency : Option ℕ → Option ℕ → Result ConfigError ℕ
  unfolding validate_max_concurrency
  resolve_max_concurrency none cfg = env_max (w.var "MAX_CONCURRENCY") cfg
  resolve_max_concurrency (some value) cfg = validate_max_concurrency value "CLI"

  unfoldable pub normalized_url : Url → Result ConfigError String
  normalized_url u = do
    guard (u.scheme =ₛ "http" || u.scheme =ₛ "https")
        (validation "upstream URL scheme must be http or https")
    guard (is_some u.host_str) (validation "upstream URL must include a host")
    guard (not (is_some u.query || is_some u.fragment))
        (validation "upstream URL must not include a query string or fragment")
    ok (append u.before_path (trim_end_matches (λ c. c == b'/') u.path))

  unfoldable pub validate_upstream : String → Result ConfigError String
  unfolding normalized_url
  validate_upstream upstream =
      map_err (λ e. validation (append "upstream must be a valid absolute URL: " e))
        (w.parse_url upstream)
      >>= normalized_url

  unfoldable pub resolve_upstream : Option String → Option String → Result ConfigError String
  unfolding validate_upstream
  resolve_upstream cli cfg =
      validate_upstream
        (unwrap_or (or_else (or_else cli (env "UPSTREAM_URL")) cfg) "http://127.0.0.1:8080")

  abbrev pub address : Option String → Option ℕ → String
  address host port = append (resolved_host host) (append ":" (w.print_u64 (unwrap_or port 3000)))

  unfoldable pub resolve_bind : Option String → Option ℕ → Option String → Option ℕ → String
  resolve_bind none none cfg_host cfg_port =
      unwrap_or (if_not_empty (env "BIND_ADDR")) (address cfg_host cfg_port)
  resolve_bind (some h) cli_port cfg_host cfg_port = address (some h) (or_else cli_port cfg_port)
  resolve_bind none (some p) cfg_host cfg_port = address cfg_host (some p)

  abbrev with_user : String → Option String → Option (String × String)
  with_user user none = none
  with_user user (some p) = some (user, p)

  unfoldable pub resolve_dashboard_auth : Option String → Option String → Option (String × String)
  resolve_dashboard_auth cfg_user cfg_password =
      with_user (unwrap_or (or_else (env "DASHBOARD_USER") cfg_user) "admin")
        (if_not_empty (or_else (env "DASHBOARD_PASSWORD") cfg_password))

  -- `len` is in bytes
  abbrev pub checked_token : Option String → Result ConfigError (Option String)
  checked_token none = ok none
  checked_token (some t) =
      if ltb (len t) 16
      then err (validation "metrics_token must be at least 16 characters")
      else ok (some t)

  unfoldable pub resolve_metrics_token : Option String → Result ConfigError (Option String)
  resolve_metrics_token cfg = checked_token (if_not_empty (or_else (env "METRICS_TOKEN") cfg))

  unfoldable pub validate_gpu_watts : F → Result ConfigError F
  validate_gpu_watts v =
      if not (w.floats.is_finite v) || w.floats.is_negative v
      then err
          (validation (append "gpu_watts must be finite and non-negative, got " (w.print_f64 v)))
      else ok v

  unfoldable pub resolve_gpu_watts : Option F → Result ConfigError F
  unfolding validate_gpu_watts
  resolve_gpu_watts none = ok w.floats.zero
  resolve_gpu_watts (some v) = validate_gpu_watts v

  unfoldable pub resolve_load_balancing :
      Option (LoadBalancingFile F) → Result ConfigError (LoadBalancing F)
  resolve_load_balancing none =
      ok (record { strategy = least_loaded; overload_factor = w.default_factor })
  resolve_load_balancing (some lb) =
      let factor = unwrap_or lb.overload_factor w.default_factor in
      if not (w.floats.is_finite factor) || w.is_below_one factor
      then err (
          validation (
            append "load_balancing.overload_factor must be finite and >= 1.0, got "
              (w.print_f64 factor)))
      else ok (record { strategy = unwrap_or lb.strategy least_loaded; overload_factor = factor })
