-- ===== src/Usage.antt =====
-- The parts of crates/twl-store/src/usage.rs that are not queries, and the pruning of old rows with
-- crates/twl-server/src/retention.rs. The tables are those of schema.sql.
pub mod Buckets
pub mod Retained
use Prim.Native.String.{String}
use token_weasel.Prelude.{
  ℕ, zero, suc, ◌+◌, ◌*◌, Bool, true, false, not, ◌&&◌, List, [], ◌∷◌, Option, none, some, ◌==◌,
  leb, if◌then◌else◌, length,
}
use token_weasel.Prelude.Int.{ℤ, pos, ◌-ℤ◌, ltb_ℤ, i64_max, is_i64}
use token_weasel.Prelude.Result.{Result, ok, err}
use token_weasel.Identity.{DbError}

pub record TodayBucket : Type 0 where
  pub bucket : ℕ
  pub input_tokens : ℤ
  pub output_tokens : ℤ
  pub cached_tokens : ℤ
  pub requests : ℤ

abbrev pub empty_bucket : ℕ → TodayBucket
empty_bucket i = record {
  bucket = i;
  input_tokens = pos 0;
  output_tokens = pos 0;
  cached_tokens = pos 0;
  requests = pos 0;
}

-- the buckets from `i` on, with those of the query that are left
unfoldable pub fill_buckets : ℕ → ℕ → List TodayBucket → List TodayBucket
fill_buckets zero i sparse = []
fill_buckets (suc n) i [] = empty_bucket i ∷ fill_buckets n (suc i) []
fill_buckets (suc n) i (b ∷ bs) =
    let taken = fill_buckets n (suc i) bs in
    let left = fill_buckets n (suc i) (b ∷ bs) in
    if b.bucket == i then b ∷ taken else empty_bucket i ∷ left

unfoldable pub fill_288_buckets : List TodayBucket → List TodayBucket
unfolding fill_buckets
fill_288_buckets sparse = fill_buckets 288 0 sparse

pub record TokenUsage : Type 0 where
  pub ts : ℤ
  pub model : String
  pub endpoint : String
  pub input_tokens : ℤ
  pub output_tokens : ℤ
  pub cached_tokens : ℤ
  pub total_tokens : ℤ
  pub api_key_id : Option ℤ

pub record EnergyRow (F : Type 0) : Type 0 where
  pub ts : ℤ
  pub elapsed_secs : F
  pub gpu_watts : F

pub record Tables (F : Type 0) : Type 0 where
  pub token_usage : List TokenUsage
  pub energy : List (EnergyRow F)

abbrev pub used_at : TokenUsage → ℤ
used_at u = u.ts

abbrev pub consumed_at : {F : Type 0} → EnergyRow F → ℤ
consumed_at e = e.ts

-- `DELETE … WHERE ts < ?`
unfoldable pub not_before : {A : Type 0} → (A → ℤ) → ℤ → List A → List A
not_before at cutoff [] = []
not_before at cutoff (x ∷ xs) =
    let rest = not_before at cutoff xs in if ltb_ℤ (at x) cutoff then rest else x ∷ rest

unfoldable pub count_before : {A : Type 0} → (A → ℤ) → ℤ → List A → ℕ
count_before at cutoff [] = 0
count_before at cutoff (x ∷ xs) = (if ltb_ℤ (at x) cutoff then 1 else 0) + count_before at cutoff xs

module _ {F : Type 0} where
  -- The deletions are two statements of their own: the second can fail after the first.
  unfoldable pub prune_older_than :
      (connect usage_fault energy_fault : Option DbError)
      → ℤ
      → Tables F
      → Tables F × Result DbError ℕ
  prune_older_than (some e) usage_fault energy_fault cutoff t = (t, err e)
  prune_older_than none (some e) energy_fault cutoff t = (t, err e)
  prune_older_than none none (some e) cutoff t =
      (record t { token_usage = not_before used_at cutoff t.token_usage }, err e)
  prune_older_than none none none cutoff t = (
    record {
      token_usage = not_before used_at cutoff t.token_usage;
      energy = not_before consumed_at cutoff t.energy;
    },
    ok (count_before used_at cutoff t.token_usage + count_before consumed_at cutoff t.energy),
  )

abbrev pub seconds_per_day : ℕ
seconds_per_day = 86_400

unfoldable pub retention_seconds : ℕ → Option ℤ
retention_seconds retention_days =
    if leb retention_days i64_max && leb (retention_days * seconds_per_day) i64_max
    then some (pos (retention_days * seconds_per_day))
    else none

unfoldable pub cutoff_timestamp : ℤ → ℤ → Option ℤ
cutoff_timestamp now retention_secs =
    if is_i64 (now -ℤ retention_secs) then some (now -ℤ retention_secs) else none

-- the period that the task prunes with, if it is started
unfoldable pub spawn_pruner : ℕ → Option ℤ
unfolding retention_seconds
spawn_pruner retention_days = if retention_days == 0 then none else retention_seconds retention_days

abbrev prune_at :
    {F : Type 0}
    → (connect usage_fault energy_fault : Option DbError) → Option ℤ
    → Tables F
    → Tables F
prune_at connect usage_fault energy_fault none t = t
prune_at connect usage_fault energy_fault (some cutoff) t =
    (prune_older_than connect usage_fault energy_fault cutoff t).0

abbrev cutoff_of : Option ℤ → ℤ → Option ℤ
cutoff_of none retention_secs = none
cutoff_of (some now) retention_secs = cutoff_timestamp now retention_secs

-- one round of the task; `clock` is the reading of `now_unix_secs`
unfoldable pub pruning_round :
    {F : Type 0}
    → (connect usage_fault energy_fault : Option DbError) → Option ℤ
    → ℤ
    → Tables F
    → Tables F
unfolding cutoff_timestamp prune_older_than
pruning_round connect usage_fault energy_fault clock retention_secs t =
    prune_at connect usage_fault energy_fault (cutoff_of clock retention_secs) t
