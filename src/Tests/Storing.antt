-- ===== src/Tests/Storing.antt =====
-- The watchdog of crates/twl-server/src/watchdog.rs, the charts of crates/twl-store/src/usage.rs and
-- the pruning of crates/twl-server/src/retention.rs at concrete inputs.
use token_weasel.Prelude.{
  ℕ, ◌*◌, ◌<◌, ◌≡◌, ◌≢◌, refl, List, [], ◌∷◌, Option, none, some, length, get_elem?, arith,
}
use token_weasel.Prelude.Int.{ℤ, pos}
use token_weasel.Prelude.Result.{ok}
use token_weasel.Config.Scalars.{resolve_retention_days}
use token_weasel.Usage.{
  TodayBucket, TokenUsage, Tables, fill_288_buckets, spawn_pruner, pruning_round, seconds_per_day,
  used_at, consumed_at,
}
use token_weasel.Usage.Buckets.{bucket_at, get_elem?-fill_288_buckets}
use token_weasel.Usage.Retained.{recent, pruning_round-recent}
use Prim.Native.String.{String}
use token_weasel.Json.{null}
use token_weasel.Provider.Models.{ModelEntry}
use token_weasel.Backends.Registry.{
  Registry, replace_entries, set_backend_models, assemble, seed_entries, allowed_entries,
}
use token_weasel.Backends.Catalog.{deduplicate_backend_entries, retain_unseen}
use token_weasel.Watchdog.{poll}
use token_weasel.Watchdog.Offers.{OffersAll, offers}
use token_weasel.Watchdog.Current.{Watched, started, polled, poll-offers}
use token_weasel.Tests.Routing.{open_backend, two_registry, two_registry-IsRouted}
use token_weasel.Tests.Configuring.{here}

-- the query's rows of two intervals
abbrev row : ℕ → TodayBucket
row i = record {
  bucket = i;
  input_tokens = pos 10;
  output_tokens = pos 20;
  cached_tokens = pos 5;
  requests = pos 2;
}

abbrev rows : List TodayBucket
rows = row 3 ∷ row 7 ∷ []

get_elem?-fill_288_buckets_example :
    (length (fill_288_buckets rows) ≡ 288)
    × (get_elem? (fill_288_buckets rows) 7 ≡ some (bucket_at 7 rows))
get_elem?-fill_288_buckets_example =
    get_elem?-fill_288_buckets rows 7 (omega arith, (omega arith, tt)) (omega arith)

abbrev use_at : ℕ → TokenUsage
use_at ts = record {
  ts = pos ts;
  model = "qwen";
  endpoint = "/v1/chat/completions";
  input_tokens = pos 1;
  output_tokens = pos 1;
  cached_tokens = pos 0;
  total_tokens = pos 2;
  api_key_id = none;
}

abbrev tables : Tables ℤ
tables = record {
  token_usage = use_at 100 ∷ use_at 200_000 ∷ [];
  energy = record { ts = pos 100; elapsed_secs = pos 1; gpu_watts = pos 300 } ∷ [];
}

accepted : resolve_retention_days here (some 1) ≡ ok 1
unfolding resolve_retention_days
accepted = refl

pruning_round-recent_example :
    (0 < 1
      → (spawn_pruner 1 ≡ some (pos (1 * seconds_per_day)))
        × (pruning_round none none none (some (pos 200_001)) (pos (1 * seconds_per_day)) tables
            ≡ record {
              token_usage = recent used_at 200_001 (1 * seconds_per_day) tables.token_usage;
              energy = recent consumed_at 200_001 (1 * seconds_per_day) tables.energy;
            }))
    × (spawn_pruner 0 ≡ none)
pruning_round-recent_example =
    pruning_round-recent here (some 1) 1 200_001 tables accepted (omega arith)

-- the first backend of two cannot be reached, and then lists a model
abbrev listing : List ModelEntry
listing = record { id = "c"; raw = null } ∷ []

abbrev cleared : Registry
cleared = replace_entries 0 [] two_registry

unreachable : Watched 0 open_backend (some []) cleared
unfolding poll set_backend_models replace_entries assemble seed_entries deduplicate_backend_entries
    retain_unseen allowed_entries
unreachable = polled none (started two_registry refl refl two_registry-IsRouted) refl

poll-offers_example :
    (last' : Option (List String)) × (reg' : Registry) × (poll 0 (some listing) (some []) cleared
      ≡ some (last', reg'))
    × OffersAll 0 open_backend ("c" ∷ []) reg'
    × ((id : String) (k : ℕ) → k ≢ 0 → offers k id reg' ≡ offers k id cleared)
poll-offers_example = poll-offers 0 open_backend (some listing) unreachable
