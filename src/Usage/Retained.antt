-- ===== src/Usage/Retained.antt =====
-- What the pruning of crates/twl-server/src/retention.rs leaves, with a period that
-- crates/twl-config/src/config.rs accepts.
use token_weasel.Prelude.{
  ℕ, ◌*◌, ◌≤◌, ◌<◌, ◌≡◌, refl, not, List, [], ◌∷◌, Option, none, some, if◌then◌else◌, arith,
}
use token_weasel.Prelude.Int.{ℤ, pos, negsuc, ◌+ℤ◌, ◌-ℤ◌, ltb_ℤ, leb_ℤ, i64_max}
use token_weasel.Prelude.Result.{ok}
use token_weasel.Config.{Outside}
use token_weasel.Config.Scalars.{resolve_retention_days}
use token_weasel.Config.Sound.{retention_days-ok}
use token_weasel.Usage.{
  Tables, used_at, consumed_at, not_before, prune_older_than, retention_seconds, cutoff_timestamp,
  spawn_pruner, pruning_round, seconds_per_day,
}

-- the rows that are at most `secs` seconds old at `now`
abbrev pub recent : {A : Type 0} → (A → ℤ) → ℕ → ℕ → List A → List A
recent at now secs [] = []
recent at now secs (x ∷ xs) =
    if leb_ℤ (pos now) (at x +ℤ pos secs) then x ∷ recent at now secs xs else recent at now secs xs

is_recent :
    (ts : ℤ) (now secs : ℕ)
    → ltb_ℤ ts (pos now -ℤ pos secs) ≡ not (leb_ℤ (pos now) (ts +ℤ pos secs))
is_recent (pos n) now secs = ground arith
is_recent (negsuc n) now secs = ground arith

not_before-recent :
    {A : Type 0} (at : A → ℤ) (now secs : ℕ) (xs : List A)
    → not_before at (pos now -ℤ pos secs) xs ≡ recent at now secs xs
unfolding not_before
not_before-recent at now secs [] = refl
not_before-recent at now secs (x ∷ xs) =
    rw (is_recent (at x) now secs) (ground (arith, not_before-recent at now secs xs))

cutoff_timestamp-fits :
    (now secs : ℕ)
    → now ≤ i64_max
    → secs ≤ i64_max
    → cutoff_timestamp (pos now) (pos secs) ≡ some (pos now -ℤ pos secs)
unfolding cutoff_timestamp
cutoff_timestamp-fits now secs h k = ground arith

module _ {G Ip F : Type 0} (w : Outside G Ip) where
  -- With a retention period that the configuration accepts and that is not 0, the task is started
  -- and its cutoff never overflows: each round that reads the clock and meets no failure leaves
  -- exactly the rows of both tables that are at most that many days old. With 0 there is no task.
  pub pruning_round-recent :
      (configured : Option ℕ) (days now : ℕ) (t : Tables F)
      → resolve_retention_days w configured ≡ ok days
      → now ≤ i64_max
      → (0 < days
          → (spawn_pruner days ≡ some (pos (days * seconds_per_day)))
            × (pruning_round none none none (some (pos now)) (pos (days * seconds_per_day)) t
                ≡ record {
                  token_usage = recent used_at now (days * seconds_per_day) t.token_usage;
                  energy = recent consumed_at now (days * seconds_per_day) t.energy;
                }))
        × (spawn_pruner 0 ≡ none)
  unfolding spawn_pruner retention_seconds pruning_round prune_older_than
  pruning_round-recent configured days now t accepted h =
      let (days_fit, fits) = retention_days-ok w configured days accepted in
      (
        λ some_days. (
          ground (arith, days_fit, fits),
          rw (cutoff_timestamp-fits now (days * seconds_per_day) h fits) (
              rw
                (
                  not_before-recent used_at now (days * seconds_per_day) t.token_usage,
                  not_before-recent consumed_at now (days * seconds_per_day) t.energy,
                )
                refl),
        ),
        refl,
      )
