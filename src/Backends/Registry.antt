-- ===== src/Backends/Registry.antt =====
-- `BackendRegistry` and `LoadGuard` of crates/twl-backends/src/lib.rs. `none` is a panic: a failed
-- assertion or an index out of bounds. `ModelEntry` has the fields of `CatalogEntry`.
pub mod Routes
pub mod Refresh
pub mod Reach
pub mod Table
use Prim.Native.String.{String}
use token_weasel.Prelude.{
  ℕ, zero, suc, ◌+◌, ◌-◌, ◌%◌, ◌^◌, Bool, true, false, not, ◌&&◌, ◌||◌, List, [], ◌∷◌, ◌++◌, Option,
  none, some, length, ltb, ◌==◌, if◌then◌else◌, get_elem?, set, unwrap_or, map,
}
use token_weasel.Prelude.Text.{String-discrete}
use token_weasel.Prelude.Assoc.{lookup}
use token_weasel.Json.{Value, str, obj, end, field_insert}
use token_weasel.Backends.Catalog.{
  CatalogEntry, RoutingEntry, RoutingMap, apply_type_override, model_allowed,
  deduplicate_backend_entries, build_routing, retain_unseen,
}
use token_weasel.Backends.Placement.{LbStrategy, least_loaded, Reads, ordered_candidates}

-- the fields of `Backend` that the registry reads
pub record Backend : Type 0 where
  pub provider : String
  pub model_types : List String
  pub model_filter : Option (List String)

pub data RoutingMode : Type 0 where
  flat_passthrough catalog_only : RoutingMode

pub record Registry : Type 0 where
  pub entries : List (List CatalogEntry)
  pub routing : RoutingMap
  pub rotations : List ℕ
  pub backends : List Backend
  pub routing_mode : RoutingMode
  pub inflight : List ℕ
  pub strategy : LbStrategy

pub data RouteError : Type 0 where
  missing_model : RouteError
  unknown_model : String → RouteError

pub data Routed : Type 0 where
  routed : List ℕ → Routed
  refused : RouteError → Routed

-- the entries that a filter lets through, with the configured type
unfoldable pub allowed_entries : Backend → List CatalogEntry → List CatalogEntry
allowed_entries b [] = []
allowed_entries b (e ∷ es) =
    if model_allowed b.model_filter e.id
    then record e { raw = apply_type_override e.raw b.model_types e.id } ∷ allowed_entries b es
    else allowed_entries b es

-- the object that `new` makes for a static model
unfoldable pub static_entry : Backend → String → CatalogEntry
static_entry b id = record {
  id = id;
  raw = obj (
      field_insert "owned_by" (str b.provider)
        (field_insert "object" (str "model") (field_insert "id" (str id) end)));
}

unfoldable pub static_entries : Backend → List String → List CatalogEntry
static_entries b ids = deduplicate_backend_entries (allowed_entries b (map (static_entry b) ids))

unfoldable pub seed_entries : List Backend → List (List String) → List (List CatalogEntry)
seed_entries (b ∷ bs) (ids ∷ idss) = static_entries b ids ∷ seed_entries bs idss
seed_entries _ _ = []

abbrev pub zeros : {A : Type 0} → List A → List ℕ
zeros [] = []
zeros (x ∷ xs) = 0 ∷ zeros xs

abbrev pub mode_allows : RoutingMode → ℕ → Bool
mode_allows flat_passthrough n = n == 1
mode_allows catalog_only n = true

-- the registry of these entries
unfoldable pub assemble : List Backend → RoutingMode → List (List CatalogEntry) → Registry
assemble backends mode entries =
    let (routing, rotations) = build_routing entries [] [] in
    record {
      entries = entries;
      routing = routing;
      rotations = rotations;
      backends = backends;
      routing_mode = mode;
      inflight = zeros backends;
      strategy = least_loaded;
    }

unfoldable pub new : List Backend → List (List String) → RoutingMode → Option Registry
new backends static_models mode =
    if ltb 0 (length backends)
      && length backends == length static_models
      && mode_allows mode (length backends)
    then some (assemble backends mode (seed_entries backends static_models))
    else none

unfoldable pub with_load_balancing : Registry → LbStrategy → Registry
with_load_balancing reg strategy = record reg { strategy = strategy }

-- the catalog with new entries for one backend, and its table
unfoldable pub replace_entries : ℕ → List CatalogEntry → Registry → Registry
replace_entries idx new_entries reg =
    let entries = set reg.entries idx new_entries in
    let (routing, rotations) = build_routing entries reg.routing reg.rotations in
    record reg { entries = entries; routing = routing; rotations = rotations }

unfoldable pub set_backend_models : ℕ → List CatalogEntry → Registry → Option Registry
set_backend_models idx polled reg = elim (get_elem? reg.backends idx) [
  | none ↦ none
  | some b ↦ some (replace_entries idx (deduplicate_backend_entries (allowed_entries b polled)) reg)
]

-- one pass with the set `seen` over the entries of all backends
unfoldable pub concat_entries : List (List CatalogEntry) → List CatalogEntry
concat_entries [] = []
concat_entries (es ∷ ess) = es ++ concat_entries ess

abbrev raw_of : CatalogEntry → Value
raw_of e = e.raw

unfoldable pub model_entries : Registry → List Value
model_entries reg = map raw_of (retain_unseen [] (concat_entries reg.entries))

-- `fetch_add(1)` and `fetch_sub(1)` on a u32
unfoldable pub begin_load : ℕ → List ℕ → Option (List ℕ)
begin_load idx inflight = elim (get_elem? inflight idx) [
  | none ↦ none
  | some n ↦ some (set inflight idx ((n + 1) % 2 ^ 32))
]

unfoldable pub drop_load : ℕ → List ℕ → Option (List ℕ)
drop_load idx inflight = elim (get_elem? inflight idx) [
  | none ↦ none
  | some n ↦ some (set inflight idx ((n + (2 ^ 32 - 1)) % 2 ^ 32))
]

abbrev pub flat_answer : RoutingMode → String → Routed
flat_answer flat_passthrough name = routed (0 ∷ [])
flat_answer catalog_only name = refused (unknown_model name)

module _ (score : ℕ → ℕ → ℕ) (sort_scored : List (ℕ × ℕ) → List (ℕ × ℕ)) (share : ℕ → ℕ → ℕ) where
  -- The answer, and the registry with the rotation counter moved on.
  unfoldable pub route_entry : Registry → Reads → RoutingEntry → Option ℕ → Registry × Routed
  route_entry reg reads e prefix =
      if length e.candidates == 1
      then (reg, routed e.candidates)
      else (let (order, rotation) =
            ordered_candidates score sort_scored share reg.strategy reads e.candidates
              (unwrap_or (get_elem? reg.rotations e.rotation) 0) prefix in
          (record reg { rotations = set reg.rotations e.rotation rotation }, routed order))

  unfoldable pub route_candidates : Registry → Reads → Option String → Option ℕ → Registry × Routed
  route_candidates reg reads none prefix = (reg, refused missing_model)
  route_candidates reg reads (some name) prefix = elim (lookup String-discrete name reg.routing) [
    | some e ↦ route_entry reg reads e prefix
    | none ↦ (reg, flat_answer reg.routing_mode name)
  ]

  abbrev first_of : Routed → Routed
  first_of (routed (i ∷ is)) = routed (i ∷ [])
  first_of r = r

  -- `route`: the first candidate; the `expect` is never hit, since no answer is empty.
  unfoldable pub route : Registry → Reads → Option String → Option ℕ → Registry × Routed
  route reg reads model prefix =
      let (reg', answer) = route_candidates reg reads model prefix in (reg', first_of answer)
