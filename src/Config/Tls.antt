-- ===== src/Config/Tls.antt =====
-- `resolve_tls` and `validate_distinct_paths` of crates/twl-config/src/config.rs.
pub mod Distinct
use Prim.Native.String.{String}
use token_weasel.Prelude.{
  ℕ, Bool, true, false, not, ◌&&◌, ◌||◌, List, [], ◌∷◌, ◌++◌, Option, none, some, if◌then◌else◌,
  ite, unwrap_or, and_then,
}
use token_weasel.Prelude.Text.{append, is_empty, ◌=ₛ◌, String-discrete}
use token_weasel.Prelude.Result.{Result, ok, err, ◌>>=◌, ◌>>◌, guard, map_err}
use token_weasel.Config.{
  ConfigError, bare, validation, EnvVar, not_present, not_unicode, set_to, TlsConfigFile, TlsConfig,
  Component, prefix, normal, root_dir, cur_dir, parent_dir, Outside,
}
use token_weasel.Config.Scalars.{resolve_string}

unfoldable pub Component-discrete : Discrete Component
unfolding String-discrete
Component-discrete = hlevel String-discrete

unfoldable pub same_path : List Component → List Component → Bool
unfolding Component-discrete
same_path [] [] = true
same_path [] (d ∷ ds) = false
same_path (c ∷ cs) [] = false
same_path (c ∷ cs) (d ∷ ds) = ite (Component-discrete c d) (same_path cs ds) false

-- A path under construction, its last component first. `pop` only takes a normal component.
abbrev pub popped : List Component → List Component
popped [] = []
popped (normal s ∷ cs) = cs
popped (prefix s ∷ cs) = prefix s ∷ cs
popped (root_dir ∷ cs) = root_dir ∷ cs
popped (cur_dir ∷ cs) = cur_dir ∷ cs
popped (parent_dir ∷ cs) = parent_dir ∷ cs

unfoldable pub normalize : List Component → List Component → List Component
normalize done [] = done
normalize done (cur_dir ∷ cs) = normalize done cs
normalize done (parent_dir ∷ cs) = normalize (popped done) cs
normalize done (normal s ∷ cs) = normalize (normal s ∷ done) cs
normalize done (prefix s ∷ cs) = normalize (prefix s ∷ done) cs
normalize done (root_dir ∷ cs) = normalize (root_dir ∷ done) cs

pub record ComparableTlsPath : Type 0 where
  pub normalized : List Component
  pub canonical : Option (List Component)

-- both are there and the same
abbrev same_canonical : Option (List Component) → Option (List Component) → Bool
same_canonical (some a) (some b) = same_path a b
same_canonical (some a) none = false
same_canonical none b = false

abbrev or_localhost : Option (List String) → List String
or_localhost (some (h ∷ hs)) = h ∷ hs
or_localhost (some []) = "localhost" ∷ []
or_localhost none = "localhost" ∷ []

unfoldable pub any_empty : List String → Bool
any_empty [] = false
any_empty (h ∷ hs) = is_empty h || any_empty hs

module _ {F Ip : Type 0} (w : Outside F Ip) where
  abbrev canonical_if : String → Bool → Result ConfigError (Option (List Component))
  canonical_if path false = ok none
  canonical_if path true =
      map_err (λ e. bare (append "failed to canonicalize TLS path: " e)) (w.canonicalize path)
      >>= λ p. ok (some p)

  unfoldable pub comparable_tls_path : String → Result ConfigError ComparableTlsPath
  unfolding normalize
  comparable_tls_path path = do
    absolute ← map_err (λ e. bare (append "failed to resolve TLS path: " e)) (w.absolute path)
    exists ← map_err (λ e. bare (append "failed to inspect TLS path: " e)) (w.try_exists path)
    canonical ← canonical_if path exists
    ok (record { normalized = normalize [] absolute; canonical = canonical })

  unfoldable pub distinct_paths : String → String → Result ConfigError (Unit {0})
  unfolding comparable_tls_path same_path
  distinct_paths cert_path key_path = do
    cert ← comparable_tls_path cert_path
    key ← comparable_tls_path key_path
    guard
        (not
          (same_path cert.normalized key.normalized || same_canonical cert.canonical key.canonical))
        (validation "TLS certificate and private key paths must resolve to different files")

  unfoldable pub validate_distinct_paths : TlsConfig → Result ConfigError (Unit {0})
  unfolding distinct_paths
  validate_distinct_paths tls =
      if not tls.enabled then ok tt else distinct_paths tls.cert_path tls.key_path

  abbrev parsed_enabled : String → Result ConfigError Bool
  parsed_enabled low =
      if low =ₛ "true" || low =ₛ "1"
      then ok true
      else if low =ₛ "false" || low =ₛ "0"
      then ok false
      else err (validation "TLS_ENABLED must be true or false")

  abbrev env_enabled : EnvVar → Option Bool → Result ConfigError Bool
  env_enabled (set_to v) cfg = parsed_enabled (w.to_lowercase v)
  env_enabled not_present cfg = ok (unwrap_or cfg true)
  env_enabled not_unicode cfg = ok (unwrap_or cfg true)

  abbrev pub resolve_enabled : Option Bool → Option Bool → Result ConfigError Bool
  resolve_enabled (some v) cfg = ok v
  resolve_enabled none cfg = env_enabled (w.var "TLS_ENABLED") cfg

  unfoldable pub check_named : TlsConfig → Result ConfigError (Unit {0})
  unfolding any_empty
  check_named tls =
      if tls.enabled
      then (do
        guard (not (is_empty tls.cert_path)) (validation "TLS is enabled but cert_path is empty")
        guard (not (is_empty tls.key_path)) (validation "TLS is enabled but key_path is empty")
        guard (not (any_empty tls.hostnames)) (validation "TLS hostname entry must not be empty"))
      else ok tt

  unfoldable pub resolve_tls :
      Option Bool
      → Option String
      → Option String
      → Option TlsConfigFile
      → Result ConfigError TlsConfig
  unfolding check_named validate_distinct_paths resolve_string
  resolve_tls cli_tls cli_cert cli_key cfg = do
    enabled ← resolve_enabled cli_tls (and_then cfg (λ c. c.enabled))
    let tls : TlsConfig = record {
      enabled = enabled;
      cert_path =
          resolve_string w cli_cert "TLS_CERT_PATH" (and_then cfg (λ c. c.cert_path))
            "tls/cert.pem";
      key_path =
          resolve_string w cli_key "TLS_KEY_PATH" (and_then cfg (λ c. c.key_path)) "tls/key.pem";
      hostnames = or_localhost (and_then cfg (λ c. c.hostnames));
    }
    check_named tls
    validate_distinct_paths tls
    ok tls
