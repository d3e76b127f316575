-- ===== src/Tests/Routing.antt =====
-- The registry of crates/twl-backends/src/lib.rs, with two backends that share a model.
use Prim.Native.String.{String}
use token_weasel.Prelude.{
  false, ◌≤◌, ℕ, ◌+◌, ◌<◌, ◌≡◌, ◌⊎◌, refl, List, [], ◌∷◌, none, some, length, ◌==◌, if◌then◌else◌,
  get_elem?, arith,
}
use token_weasel.Prelude.Text.{String-discrete}
use token_weasel.Prelude.Assoc.{lookup}
use token_weasel.Json.{null, str, obj, end, field}
use token_weasel.Backends.Catalog.{
  CatalogEntry, RoutingMap, build_routing, deduplicate_backend_entries, model_allowed,
}
use token_weasel.Backends.Catalog.Served.{serving}
use token_weasel.Backends.Placement.{
  least_loaded, Reads, ordered_candidates, prefix_placement, score_all, choose, others,
  spill_target,
}
use token_weasel.Backends.Placement.Order.{count, is, IsDistinct, ordered_candidates_complete}
use token_weasel.Backends.Placement.Spill.{
  first, IsPreferred, steady, bound_of, prefix_placement-IsPreferred,
}
use token_weasel.Backends.Registry.{
  Backend, Registry, catalog_only, new, assemble, seed_entries, route_candidates, flat_answer,
}
use token_weasel.Backends.Registry.Routes.{IsRouted, Tries, new-IsRouted, route_candidates-serving}
use token_weasel.Backends.Registry.{begin_load}
use token_weasel.Backends.Registry.Table.{InUse, made, requested, InUse-IsRouted}
use token_weasel.Backends.Registry.Reach.{Loads, LoadReach, start, next, begins, LoadReach-exact}
use token_weasel.Proxy.{
  Attempt, completed, not_present, proxy_handler, serve, reply_of, failover, attempt,
}
use token_weasel.Proxy.Body.{prepare_body}
use token_weasel.Backends.Registry.{route_entry, static_entries, static_entry, allowed_entries}
use token_weasel.Backends.Catalog.{
  add_backends, add_entries, add_entry, push_candidate, rotation_for, last, retain_unseen,
  apply_type_override,
}
use token_weasel.Json.{get, as_str, field_get}
use token_weasel.Prelude.Assoc.{insert}
use token_weasel.Proxy.Whole.{Codec, handle_request, forwarded_to, model_of, handle_request_listed}
use token_weasel.Tests.Sorting.{sort_scores, sort_scores-SortsScores}

abbrev pub open_backend : Backend
open_backend = record { provider = "vllm"; model_types = []; model_filter = none }

abbrev two_backends : List Backend
two_backends = open_backend ∷ open_backend ∷ []

abbrev two_models : List (List String)
two_models = ("a" ∷ []) ∷ ("a" ∷ "b" ∷ []) ∷ []

abbrev pub two_registry : Registry
two_registry = assemble two_backends catalog_only (seed_entries two_backends two_models)

two_registry-new : new two_backends two_models catalog_only ≡ some two_registry
unfolding new
two_registry-new = refl

pub two_registry-IsRouted : IsRouted two_registry
two_registry-IsRouted =
    new-IsRouted two_backends two_models catalog_only two_registry two_registry-new

-- a score that prefers high indices, and a share of one
abbrev index_score : ℕ → ℕ → ℕ
index_score h i = h + i

abbrev one_share : ℕ → ℕ → ℕ
one_share total n = 1

abbrev idle_reads : Reads
idle_reads = steady index_score sort_scores one_share sort_scores-SortsScores (λ i. 0)

route_candidates-serving_example :
    let answer =
      (route_candidates index_score sort_scores one_share two_registry idle_reads
        (some "a")
        none).1 in
    (serving "a" 0 two_registry.entries ≡ []) × (answer ≡ flat_answer two_registry.routing_mode "a")
    ⊎ (0 < length (serving "a" 0 two_registry.entries))
      × Tries index_score sort_scores one_share sort_scores-SortsScores
          (serving "a" 0 two_registry.entries)
          answer
route_candidates-serving_example =
    route_candidates-serving index_score sort_scores one_share sort_scores-SortsScores two_registry
      idle_reads "a" none two_registry-IsRouted

abbrev entry_of : String → CatalogEntry
entry_of id = record { id = id; raw = null }

three-IsDistinct : IsDistinct (0 ∷ 1 ∷ 2 ∷ [])
three-IsDistinct i = ground arith

-- a counter that grows from one comparison to the next
abbrev rising_reads : Reads
rising_reads = record idle_reads { for_sort = λ at i. at }

ordered_candidates_complete_example :
    count
      (is 1)
      (ordered_candidates index_score sort_scores one_share least_loaded rising_reads
        (0 ∷ 1 ∷ 2 ∷ [])
        7
        none).0
    ≡ count (is 1) (0 ∷ 1 ∷ 2 ∷ [])
ordered_candidates_complete_example =
    ordered_candidates_complete index_score sort_scores one_share sort_scores-SortsScores
      least_loaded rising_reads (0 ∷ 1 ∷ 2 ∷ []) 7 none 1 three-IsDistinct

-- the candidate with the highest score is over the bound
abbrev hot_load : ℕ → ℕ
hot_load i = if i == 2 then 9 else 0

prefix_run :
    prefix_placement index_score sort_scores one_share
      (steady index_score sort_scores one_share sort_scores-SortsScores hot_load)
      (0 ∷ 1 ∷ 2 ∷ [])
      4
    ≡ 1 ∷ 2 ∷ 0 ∷ []
unfolding prefix_placement score_all choose others spill_target
prefix_run = refl

prefix_placement-IsPreferred_example :
    (c : ℕ) × (first (
        prefix_placement index_score sort_scores one_share
          (steady index_score sort_scores one_share sort_scores-SortsScores hot_load)
          (0 ∷ 1 ∷ 2 ∷ [])
          4)
      ≡ some c)
    × IsPreferred index_score sort_scores one_share sort_scores-SortsScores hot_load
        (bound_of index_score sort_scores one_share sort_scores-SortsScores hot_load
          (0 ∷ 1 ∷ 2 ∷ []))
        4
        (0 ∷ 1 ∷ 2 ∷ [])
        c
prefix_placement-IsPreferred_example =
    prefix_placement-IsPreferred index_score sort_scores one_share sort_scores-SortsScores hot_load
      (0 ∷ 1 ∷ 2 ∷ []) 4 (omega arith)

abbrev old_routing : RoutingMap
old_routing = ("a", record { candidates = 0 ∷ []; rotation = 0 }) ∷ []

abbrev twice : List CatalogEntry
twice = entry_of "a" ∷ entry_of "b" ∷ entry_of "a" ∷ []

two_registry-InUse : InUse index_score sort_scores one_share two_registry
two_registry-InUse = made two_backends two_models catalog_only two_registry-new

InUse-IsRouted_example :
    IsRouted
      (route_candidates index_score sort_scores one_share two_registry idle_reads (some "a") none).0
InUse-IsRouted_example =
    InUse-IsRouted index_score sort_scores one_share
      (requested idle_reads (some "a") none two_registry-InUse)

-- one request at the second of two backends
abbrev one_load : Loads
one_load = record { inflight = 0 ∷ 1 ∷ []; guards = 1 ∷ [] }

one_load-LoadReach : LoadReach 2 one_load
unfolding begin_load
one_load-LoadReach = next (start (0 ∷ 0 ∷ []) refl (refl, (refl, tt))) (begins 1 refl)

LoadReach-exact_example : get_elem? one_load.inflight 1 ≡ some (count (is 1) one_load.guards)
LoadReach-exact_example = LoadReach-exact 2 1 one_load-LoadReach (omega arith) (omega arith)

-- a request for "b", which the second backend lists
abbrev b_codec : Codec
b_codec = record {
  as_bytes = λ s. [];
  hash = λ b. 0;
  from_slice = λ b. some (obj (field "model" (str "b") end));
  to_vec = λ v. none;
}

abbrev all_up : ℕ → Attempt
all_up i = completed 200

b_request_run :
    forwarded_to
      (handle_request index_score sort_scores one_share b_codec two_registry idle_reads false
        not_present "/v1/embeddings"
        (some (1 ∷ []))
        all_up).1
    ≡ some 1
unfolding handle_request proxy_handler serve reply_of failover attempt route_candidates route_entry
    static_entries static_entry allowed_entries seed_entries assemble build_routing add_backends
    add_entries add_entry push_candidate rotation_for last retain_unseen deduplicate_backend_entries
    model_allowed apply_type_override get as_str field_get lookup insert String-discrete
    prepare_body
b_request_run = refl

handle_request_listed_example :
    (name : String) × (model_of b_codec "/v1/embeddings" (1 ∷ []) ≡ some name)
    × (1 ≤ count (is 1) (serving name 0 two_registry.entries))
unfolding assemble
handle_request_listed_example =
    handle_request_listed index_score sort_scores one_share sort_scores-SortsScores b_codec
      two_registry idle_reads false not_present "/v1/embeddings" (1 ∷ []) all_up 1
      two_registry-IsRouted refl b_request_run
