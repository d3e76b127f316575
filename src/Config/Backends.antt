-- ===== src/Config/Backends.antt =====
-- `resolve_backends` and `resolve_backend_headers` of crates/twl-config/src/config.rs.
use Prim.Native.String.{String}
use token_weasel.Prelude.{
  ℕ, suc, Bool, false, not, ◌&&◌, ◌||◌, List, [], ◌∷◌, Option, none, some, if◌then◌else◌, ltb,
  unwrap_or, is_some, is_none,
}
use token_weasel.Prelude.Text.{append, is_empty, ◌=ₛ◌}
use token_weasel.Prelude.Result.{Result, ok, err, ◌>>=◌, ◌>>◌, guard, map_err}
use token_weasel.Backends.Catalog.{is_in}
use token_weasel.Provider.Models.{llama_cpp}
use token_weasel.Config.{
  ConfigError, config_file, bare, validation, EnvVar, not_present, not_unicode, set_to,
  BackendConfigFile, BackendConfig, Outside,
}
use token_weasel.Config.Scalars.{validate_upstream, validate_gpu_watts}

-- `to_string` of an error
abbrev pub display : ConfigError → String
display (config_file path m) = append "config file error (" (append path (append "): " m))
display (bare m) = m
display (validation m) = m

-- the first two neighbours of one name
unfoldable pub find_duplicate : List (String × String) → Option String
find_duplicate [] = none
find_duplicate ((n, v) ∷ []) = none
find_duplicate ((n, v) ∷ (n', v') ∷ hs) =
    let rest = find_duplicate ((n', v') ∷ hs) in if n =ₛ n' then some n else rest

unfoldable pub has_header : String → List (String × String) → Bool
has_header name [] = false
has_header name ((n, v) ∷ hs) = n =ₛ name || has_header name hs

unfoldable pub check_filter :
    (String → ConfigError) → List String → List String → Result ConfigError (Unit {0})
check_filter at seen [] = ok tt
check_filter at seen (id ∷ ids) =
    let rest = check_filter at (id ∷ seen) ids in
    if is_empty id
    then err (at "model_filter entries must not be empty")
    else if is_in id seen
    then err (at (append "duplicate model_filter entry: '" (append id "'")))
    else rest

abbrev pub check_model_filter :
    (String → ConfigError) → Option (List String) → Result ConfigError (Unit {0})
check_model_filter at none = ok tt
check_model_filter at (some []) = err (at "model_filter must not be empty")
check_model_filter at (some (id ∷ ids)) = check_filter at [] (id ∷ ids)

abbrev pub check_poll :
    (String → ConfigError) → (ℕ → String) → Option ℕ → Result ConfigError (Option ℕ)
check_poll at print none = ok none
check_poll at print (some v) =
    if ltb v 1
    then err (at (append "models_poll_secs must be >= 1, got " (print v)))
    else ok (some v)

module _ {F Ip : Type 0} (w : Outside F Ip) where
  -- `{:?}` of a name is left as the name.
  abbrev parsed_header : String → String → Option String → Result ConfigError (String × String)
  parsed_header name value none = err (validation (append "invalid HTTP header name: " name))
  parsed_header name value (some parsed) =
      if w.header_value value
      then ok (parsed, value)
      else err (
          validation (
            append "invalid HTTP header value for "
              (append parsed ": contains bytes not permitted in a header value")))

  unfoldable pub parse_headers :
      List (String × String) → Result ConfigError (List (String × String))
  parse_headers [] = ok []
  parse_headers ((name, value) ∷ hs) = do
    h ← parsed_header name value (w.header_name name)
    rest ← parse_headers hs
    ok (h ∷ rest)

  abbrev check_sorted :
      List (String × String) → Option String → Result ConfigError (List (String × String))
  check_sorted sorted none = ok sorted
  check_sorted sorted (some n) =
      err (validation (append "duplicate HTTP header name (case-insensitive): " n))

  unfoldable pub resolve_backend_headers :
      Option (List (String × String)) → Result ConfigError (List (String × String))
  unfolding parse_headers find_duplicate
  resolve_backend_headers none = ok []
  resolve_backend_headers (some headers) = do
    resolved ← parse_headers headers
    let sorted = w.sort_headers resolved
    check_sorted sorted (find_duplicate sorted)

  -- an error of the i-th entry
  abbrev pub backend_error : ℕ → String → ConfigError
  backend_error i m = validation (append "backend[" (append (w.print_u64 i) (append "]: " m)))

  abbrev pub required_upstream : ℕ → Option String → Result ConfigError String
  required_upstream i none = err (backend_error i "upstream is required")
  required_upstream i (some s) = map_err (λ e. backend_error i (display e)) (validate_upstream w s)

  abbrev env_key : ℕ → String → EnvVar → Result ConfigError (Option String)
  env_key i name (set_to v) =
      if is_empty v
      then err (backend_error i (append "api_key_env env var \"" (append name "\" is empty")))
      else ok (some v)
  env_key i name not_present =
      err (backend_error i (append "api_key_env env var \"" (append name "\" is not set")))
  env_key i name not_unicode =
      err (backend_error i (append "api_key_env env var \"" (append name "\" is not set")))

  abbrev pub resolve_api_key :
      ℕ → Option String → Option String → Result ConfigError (Option String)
  resolve_api_key i (some k) name = ok (some k)
  resolve_api_key i none none = ok none
  resolve_api_key i none (some name) = env_key i name (w.var name)

  unfoldable pub resolve_backend : ℕ → BackendConfigFile F → Result ConfigError (BackendConfig F)
  unfolding resolve_backend_headers check_filter has_header
  resolve_backend i entry = do
    upstream ← required_upstream i entry.upstream
    guard (not (is_some entry.api_key && is_some entry.api_key_env))
        (backend_error i "api_key and api_key_env are mutually exclusive")
    api_key ← resolve_api_key i entry.api_key entry.api_key_env
    let gpu_watts = unwrap_or entry.gpu_watts w.floats.zero
    watts ← map_err (λ e. backend_error i (display e)) (validate_gpu_watts w gpu_watts)
    poll ← check_poll (backend_error i) w.print_u64 entry.models_poll_secs
    guard (not (is_none entry.models && is_none entry.models_poll_secs))
        (backend_error i "each backend must have at least one of models or models_poll_secs")
    extra_headers ←
        map_err (λ e. backend_error i (display e)) (resolve_backend_headers entry.headers)
    guard (not (is_some api_key && has_header "authorization" extra_headers))
        (backend_error i "authorization header cannot be combined with api_key or api_key_env")
    check_model_filter (backend_error i) entry.model_filter
    ok (record {
      upstream = upstream;
      provider = unwrap_or entry.provider llama_cpp;
      api_key = api_key;
      extra_headers = extra_headers;
      models = unwrap_or entry.models [];
      models_poll_secs = poll;
      gpu_watts = gpu_watts;
      model_types = unwrap_or entry.model_types [];
      model_filter = entry.model_filter;
    })

  unfoldable pub resolve_entries :
      ℕ → List (BackendConfigFile F) → Result ConfigError (List (BackendConfig F))
  unfolding resolve_backend
  resolve_entries i [] = ok []
  resolve_entries i (e ∷ es) = do
    b ← resolve_backend i e
    bs ← resolve_entries (suc i) es
    ok (b ∷ bs)

  unfoldable pub resolve_backends :
      List (BackendConfigFile F) → Result ConfigError (List (BackendConfig F))
  unfolding resolve_entries
  resolve_backends [] = err (validation "backends array must not be empty")
  resolve_backends (e ∷ es) = resolve_entries 0 (e ∷ es)
