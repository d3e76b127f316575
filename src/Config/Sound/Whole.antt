-- ===== src/Config/Sound/Whole.antt =====
-- `Config::resolve` of crates/twl-config/src/config.rs as a whole.
use Prim.Native.String.{String, len}
use token_weasel.Prelude.{◌*◌, ◌≤◌, ◌<◌, ◌≡◌, true, false, List, ◌∷◌, Option, some, All}
use token_weasel.Prelude.Int.{i64_max}
use token_weasel.Prelude.Result.{Result, ok}
use token_weasel.Config.{ConfigError, BackendConfig, Config, Outside}
use token_weasel.Config.Scalars.{seconds_per_day}
use token_weasel.Config.Sound.Lists.{IsDashboard}
use token_weasel.Config.Sound.Served.{IsServable}

module _ {F Ip : Type 0} (w : Outside F Ip) where
  pub record IsSound (c : Config F Ip) : Type 0 where
    pub concurrency : (1 ≤ c.max_concurrency) × (c.max_concurrency ≤ w.max_permits)
    pub window : 0 < c.fair_queue.window_seconds
    pub retention : (c.retention_days ≤ i64_max) × (c.retention_days * seconds_per_day ≤ i64_max)
    pub token : (t : String) → c.metrics_token ≡ some t → 16 ≤ len t
    pub factor :
        (w.floats.is_finite c.load_balancing.overload_factor ≡ true)
        × (w.is_below_one c.load_balancing.overload_factor ≡ false)
    pub dashboard_lists : IsDashboard w c.dashboard
    pub servable : All (IsServable w) c.backends
    pub first :
        (b : BackendConfig F) × (bs : List (BackendConfig F)) × (c.backends ≡ b ∷ bs)
        × (c.upstream ≡ b.upstream)
        × (c.gpu_watts ≡ b.gpu_watts)

  -- what may come of `resolve`: a result that is an error, or a sound configuration
  abbrev pub Accepts : Option (Result ConfigError (Config F Ip)) → Type 0
  Accepts o =
      (r : Result ConfigError (Config F Ip)) × (o ≡ some r)
      × ((c : Config F Ip) → r ≡ ok c → IsSound c)
