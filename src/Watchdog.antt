-- ===== src/Watchdog.antt =====
-- crates/twl-server/src/watchdog.rs: the polling of one backend's models. What the upstream answers
-- is an argument, with its body parsed as JSON or not.
pub mod Offers
pub mod Current
use Prim.Native.String.{String}
use token_weasel.Prelude.{
  ℕ, ◌&&◌, Bool, true, false, not, List, [], ◌∷◌, Option, none, some, ite, if◌then◌else◌, leb, ltb,
}
use token_weasel.Prelude.Text.{String-discrete}
use token_weasel.Json.{Value}
use token_weasel.Provider.Models.{ProviderKind, ModelEntry, Listing, parsed, parse_models}
use token_weasel.Backends.Catalog.{CatalogEntry}
use token_weasel.Backends.Registry.{Registry, set_backend_models}

-- the response to a poll: it timed out, the request or the reading of its body failed, or it has a
-- status and a body
pub data Answer : Type 0 where
  timed_out request_failed : Answer
  answered : (status : ℕ) → (body : Option Value) → Answer

abbrev pub entries_of : Listing → Option (List ModelEntry)
entries_of (parsed es) = some es
entries_of _ = none

unfoldable pub poll_once : ProviderKind → Answer → Option (List ModelEntry)
poll_once provider timed_out = none
poll_once provider request_failed = none
poll_once provider (answered status body) =
    if leb 200 status && ltb status 300 then entries_of (parse_models provider body) else none

abbrev to_catalog : List ModelEntry → List CatalogEntry
to_catalog [] = []
to_catalog (e ∷ es) = record { id = e.id; raw = e.raw } ∷ to_catalog es

abbrev pub ids_of : List ModelEntry → List String
ids_of [] = []
ids_of (e ∷ es) = e.id ∷ ids_of es

unfoldable pub same_ids : List String → List String → Bool
same_ids [] [] = true
same_ids [] (j ∷ js) = false
same_ids (i ∷ is) [] = false
same_ids (i ∷ is) (j ∷ js) = ite (String-discrete i j) (same_ids is js) false

abbrev pub is_last_seen : Option (List String) → List String → Bool
is_last_seen none ids = false
is_last_seen (some last) ids = same_ids last ids

-- The new `last_ids` with the registry; `none` is a panic.
abbrev pub updated : List String → Option Registry → Option (Option (List String) × Registry)
updated ids none = none
updated ids (some reg) = some (some ids, reg)

unfoldable pub refresh :
    ℕ → List ModelEntry → Option (List String) → Registry → Option (Option (List String) × Registry)
unfolding same_ids
refresh idx entries last_ids reg =
    if is_last_seen last_ids (ids_of entries)
    then some (last_ids, reg)
    else updated (ids_of entries) (set_backend_models idx (to_catalog entries) reg)

-- one round of the loop
unfoldable pub poll :
    ℕ
    → Option (List ModelEntry)
    → Option (List String)
    → Registry
    → Option (Option (List String) × Registry)
unfolding refresh same_ids
poll idx (some entries) last_ids reg = refresh idx entries last_ids reg
poll idx none last_ids reg =
    if is_last_seen last_ids []
    then some (last_ids, reg)
    else updated [] (set_backend_models idx [] reg)
