-- ===== src/Config/Scalars/Precedence.antt =====
-- Which source wins in crates/twl-config/src/config.rs: the command line, the environment, the file.
use Prim.Native.String.{String}
use token_weasel.Prelude.{
  ℕ, ◌≡◌, refl, true, false, ◌||◌, Option, none, some, is_some, or_else, arith,
}
use token_weasel.Prelude.Text.{is_empty}
use token_weasel.Config.{EnvVar, set_to, Outside}
use token_weasel.Config.Scalars.{address, resolve_bind}

module _ {F Ip : Type 0} (w : Outside F Ip) where
  abbrev with_env : (String → EnvVar) → Outside F Ip
  with_env var = record w { var = var }

  -- An address that the command line gives in part does not depend on the environment, and takes
  -- what is left open from the file or the default. Without it a `BIND_ADDR` that is not empty is
  -- the whole address, whatever the file says.
  resolve_bind-precedence :
      (var : String → EnvVar) (host cfg_host : Option String) (port cfg_port : Option ℕ)
      → ((is_some host || is_some port) ≡ true
          → (resolve_bind w host port cfg_host cfg_port
              ≡ address w (or_else host cfg_host) (or_else port cfg_port))
            × (resolve_bind (with_env var) host port cfg_host cfg_port
                ≡ resolve_bind w host port cfg_host cfg_port))
        × ((a : String)
            → w.var "BIND_ADDR" ≡ set_to a
            → is_empty a ≡ false
            → resolve_bind w none none cfg_host cfg_port ≡ a)
  unfolding resolve_bind
  resolve_bind-precedence var host cfg_host port cfg_port =
      (cli host port, λ a e full. rw (e, full) refl)
    where
      cli :
          (host : Option String) (port : Option ℕ)
          → (is_some host || is_some port) ≡ true
          → (resolve_bind w host port cfg_host cfg_port
              ≡ address w (or_else host cfg_host) (or_else port cfg_port))
            × (resolve_bind (with_env var) host port cfg_host cfg_port
                ≡ resolve_bind w host port cfg_host cfg_port)
      cli none none h = absurd (ground arith)
      cli none (some p) h = (refl, refl)
      cli (some a) none h = (refl, refl)
      cli (some a) (some p) h = (refl, refl)
