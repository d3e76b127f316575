-- ===== src/Throttle.antt =====
-- `LoginThrottle` and `backoff_for_failures` of crates/twl-server/src/ratelimit.rs. Times are whole
-- Unix seconds; a key is only compared. The map's list order is its iteration order, whatever it is.
pub mod Backoff
pub mod Capacity
pub mod Lockout
use token_weasel.Prelude.{
  ℕ, suc, ◌+◌, ◌-◌, ◌*◌, ◌^◌, min, Bool, true, false, ◌&&◌, not, List, [], ◌∷◌, Option, none, some,
  length, ltb, leb, if◌then◌else◌, is_some, unwrap_or,
}
use token_weasel.Prelude.Assoc.{lookup, insert, remove}

-- `CAP`, `FREE_ATTEMPTS`, `BASE_BACKOFF_SECS`, `MAX_BACKOFF_SECS`
abbrev pub cap_clients : ℕ
cap_clients = 4096

abbrev pub free_attempts : ℕ
free_attempts = 5

abbrev base_backoff_secs : ℕ
base_backoff_secs = 1

abbrev pub max_backoff_secs : ℕ
max_backoff_secs = 60

abbrev pub u32_max : ℕ
u32_max = 4_294_967_295

-- `BASE_BACKOFF_SECS << shift` is a multiplication: the shift is at most 32.
unfoldable pub backoff_for_failures : ℕ → ℕ
backoff_for_failures failures =
    if leb failures free_attempts
    then 0
    else min (base_backoff_secs * 2 ^ min (failures - free_attempts - 1) 32) max_backoff_secs

pub record Entry : Type 0 where
  pub failures : ℕ
  pub blocked_until : ℕ

module _ {K : Type 0} (eq : Discrete K) where
  -- `Err(remaining)` is `some remaining`.
  unfoldable pub check : ℕ → K → List (K × Entry) → Option ℕ
  check now key map = elim (lookup eq key map) [
    | none ↦ none
    | some entry ↦ if ltb now entry.blocked_until then some (entry.blocked_until - now) else none
  ]

  -- the second pass of the eviction: the entry with the smallest `blocked_until`
  unfoldable pub least_blocked : K × Entry → List (K × Entry) → K × Entry
  least_blocked e [] = e
  least_blocked e (f ∷ map) =
      let rest = least_blocked f map in
      if leb e.1.blocked_until rest.1.blocked_until then e else rest

  unfoldable pub evict_least : List (K × Entry) → List (K × Entry)
  unfolding least_blocked
  evict_least [] = []
  evict_least (e ∷ map) = remove eq (least_blocked e map).0 (e ∷ map)

-- the first pass: expired entries go
unfoldable pub retain_active : {K : Type 0} → ℕ → List (K × Entry) → List (K × Entry)
retain_active now [] = []
retain_active now ((k, e) ∷ map) =
    if ltb now e.blocked_until then (k, e) ∷ retain_active now map else retain_active now map

abbrev pub fail_entry : ℕ → Entry → Entry
fail_entry now entry =
    let failures = min (entry.failures + 1) u32_max in
    let bk = backoff_for_failures failures in
    record {
      failures = failures;
      blocked_until = if ltb 0 bk then now + bk else entry.blocked_until;
    }

abbrev pub new_entry : Entry
new_entry = record { failures = 0; blocked_until = 0 }

module _ {K : Type 0} (eq : Discrete K) where
  -- the targeted eviction in front of a new key
  unfoldable pub make_room : ℕ → K → List (K × Entry) → List (K × Entry)
  make_room now key map =
      if not (is_some (lookup eq key map)) && leb cap_clients (length map)
      then (if leb cap_clients (length (retain_active now map))
          then evict_least eq (retain_active now map)
          else retain_active now map)
      else map

  unfoldable pub record_failure : ℕ → K → List (K × Entry) → List (K × Entry)
  record_failure now key map =
      let room = make_room now key map in
      insert eq key (fail_entry now (unwrap_or (lookup eq key room) new_entry)) room

  unfoldable pub record_success : K → List (K × Entry) → List (K × Entry)
  record_success key map = remove eq key map

  -- What logins do to the map: a failure at a time, or a success.
  unfoldable pub run_logins : List (Option ℕ × K) → List (K × Entry) → List (K × Entry)
  unfolding record_failure record_success
  run_logins [] map = map
  run_logins ((some now, key) ∷ logins) map = run_logins logins (record_failure now key map)
  run_logins ((none, key) ∷ logins) map = run_logins logins (record_success key map)
