-- ===== src/Config.antt =====
-- The configuration of crates/twl-config: what the command line, the environment and the file give,
-- and what the server runs with. `Outside` holds what the program asks of its surroundings.
pub mod Scalars
pub mod Dashboard
pub mod Tls
pub mod Backends
pub mod Resolve
pub mod Sound
use Prim.Native.String.{String}
use token_weasel.Prelude.{ℕ, Bool, true, false, List, Option, none, some}
use token_weasel.Prelude.Result.{Result, ok, err}
use token_weasel.Pricing.{Floats, Pricing}
use token_weasel.Provider.Models.{ProviderKind, ModelKind}

pub data ConfigError : Type 0 where
  -- path and message
  config_file : String → String → ConfigError
  bare validation : String → ConfigError

-- `std::env::var`
pub data EnvVar : Type 0 where
  not_present not_unicode : EnvVar
  set_to : String → EnvVar

pub data LbStrategy : Type 0 where
  round_robin least_loaded : LbStrategy

pub record Cli : Type 0 where
  pub port : Option ℕ
  pub host : Option String
  pub upstream : Option String
  pub db : Option String
  pub max_concurrency : Option ℕ
  pub config : Option String
  pub tls : Option Bool
  pub tls_cert : Option String
  pub tls_key : Option String

pub record DashboardConfigFile : Type 0 where
  pub cards : Option (List String)
  pub graphs : Option (List String)
  pub max_rows : Option ℕ
  pub trusted_proxies : Option (List String)

pub record TlsConfigFile : Type 0 where
  pub enabled : Option Bool
  pub cert_path : Option String
  pub key_path : Option String
  pub hostnames : Option (List String)

pub record LoadBalancingFile (F : Type 0) : Type 0 where
  pub strategy : Option LbStrategy
  pub overload_factor : Option F

pub record FairQueueConfigFile : Type 0 where
  pub enabled : Option Bool
  pub window_seconds : Option ℕ

pub record BackendConfigFile (F : Type 0) : Type 0 where
  pub provider : Option ProviderKind
  pub upstream : Option String
  pub api_key : Option String
  pub api_key_env : Option String
  pub headers : Option (List (String × String))
  pub models : Option (List String)
  pub models_poll_secs : Option ℕ
  pub gpu_watts : Option F
  pub model_types : Option (List (String × ModelKind))
  pub model_filter : Option (List String)

pub record ConfigFile (F : Type 0) : Type 0 where
  pub host : Option String
  pub port : Option ℕ
  pub upstream : Option String
  pub db_path : Option String
  pub pricing : Option (Pricing F)
  pub max_concurrency : Option ℕ
  pub gpu_watts : Option F
  pub backends : Option (List (BackendConfigFile F))
  pub dashboard_user : Option String
  pub dashboard_password : Option String
  pub public_usage : Option Bool
  pub require_api_key : Option Bool
  pub load_balancing : Option (LoadBalancingFile F)
  pub fair_queue : Option FairQueueConfigFile
  pub dashboard : Option DashboardConfigFile
  pub retention_days : Option ℕ
  pub tls : Option TlsConfigFile
  pub metrics_token : Option String

pub record LoadBalancing (F : Type 0) : Type 0 where
  pub strategy : LbStrategy
  pub overload_factor : F

pub record FairQueueConfig : Type 0 where
  pub enabled : Bool
  pub window_seconds : ℕ

pub record DashboardConfig (Ip : Type 0) : Type 0 where
  pub cards : List String
  pub graphs : List String
  pub max_rows : Option ℕ
  pub trusted_proxies : List Ip

pub record TlsConfig : Type 0 where
  pub enabled : Bool
  pub cert_path : String
  pub key_path : String
  pub hostnames : List String

pub record BackendConfig (F : Type 0) : Type 0 where
  pub upstream : String
  pub provider : ProviderKind
  pub api_key : Option String
  pub extra_headers : List (String × String)
  pub models : List String
  pub models_poll_secs : Option ℕ
  pub gpu_watts : F
  pub model_types : List (String × ModelKind)
  pub model_filter : Option (List String)

pub record Config (F Ip : Type 0) : Type 0 where
  pub bind : String
  pub upstream : String
  pub db_path : String
  pub pricing : Pricing F
  pub max_concurrency : ℕ
  pub gpu_watts : F
  pub backends : List (BackendConfig F)
  pub flat_passthrough : Bool
  pub dashboard_auth : Option (String × String)
  pub public_usage : Bool
  pub require_api_key : Bool
  pub load_balancing : LoadBalancing F
  pub fair_queue : FairQueueConfig
  pub dashboard : DashboardConfig Ip
  pub retention_days : ℕ
  pub tls : TlsConfig
  pub metrics_token : Option String

-- the parts of a parsed URL that the program reads
pub record Url : Type 0 where
  pub scheme : String
  pub host_str : Option String
  pub query : Option String
  pub fragment : Option String
  pub before_path : String
  pub path : String

-- `std::path::Component`
pub data Component : Type 0 where
  prefix normal : String → Component
  root_dir cur_dir parent_dir : Component

-- The environment, the file system, and the library calls: printing, parsing and sorting.
pub record Outside (F Ip : Type 0) : Type 0 where
  pub var : String → EnvVar
  pub max_permits : ℕ
  pub floats : Floats F
  pub is_below_one : F → Bool
  pub default_factor : F
  pub print_f64 : F → String
  pub print_u64 : ℕ → String
  pub parse_usize : String → Option ℕ
  pub parse_url : String → Result String Url
  pub parse_ip : String → Option Ip
  pub to_lowercase : String → String
  pub header_name : String → Option String
  pub header_value : String → Bool
  pub sort_headers : List (String × String) → List (String × String)
  pub exists : String → Bool
  pub read_to_string : String → Result String String
  pub from_json : String → Result String (ConfigFile F)
  -- the components of the absolute path
  pub absolute : String → Result String (List Component)
  pub try_exists : String → Result String Bool
  pub canonicalize : String → Result String (List Component)
