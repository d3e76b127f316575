-- ===== src/Backends/Registry/Routes.antt =====
-- What a request is answered with, in terms of the models that the backends list.
use Prim.Native.String.{String}
use mathlib.Core.Option.{none-ne-some, some-injective}
use token_weasel.Prelude.{
  ℕ, ◌+◌, ◌≤◌, ◌<◌, ◌≡◌, refl, sym, ap, subst, ◌∙◌, ◌⊎◌, inl, inr, Bool, true, false, List, [], ◌∷◌,
  Option, none, some, length, ltb, leb, ◌==◌, ◌&&◌, if◌then◌else◌, get_elem?, set, unwrap_or, arith,
  Option-cases, Bool-cases,
}
use token_weasel.Prelude.Text.{String-discrete}
use token_weasel.Prelude.Assoc.{lookup}
use token_weasel.Backends.Catalog.{CatalogEntry, RoutingEntry}
use token_weasel.Backends.Catalog.Served.{
  serving, non_empty, candidates_of, offered, offered-build_routing,
}
use token_weasel.Backends.Placement.{Reads, ordered_candidates}
use token_weasel.Backends.Placement.Order.{
  count, is, IsDistinct, SortsScores, ordered_candidates_complete,
}
use token_weasel.Backends.Registry.{
  Backend, Registry, Routed, routed, RoutingMode, new, flat_answer, route_entry, route_candidates,
  seed_entries, mode_allows, assemble, replace_entries,
}

-- The table offers each model exactly to the backends that list it.
abbrev pub IsRouted : Registry → Type 0
IsRouted reg =
    (id : String) → offered id (reg.routing, reg.rotations) ≡ non_empty (serving id 0 reg.entries)

count-serving :
    (id : String) (i j : ℕ) (ess : List (List CatalogEntry))
    → count (is j) (serving id i ess) ≤ (if leb i j then 1 else 0)
count-serving id i j [] = ground arith
count-serving id i j (es ∷ ess) = ground (arith, count-serving id (i + 1) j ess)

serving-IsDistinct : (id : String) (ess : List (List CatalogEntry)) → IsDistinct (serving id 0 ess)
serving-IsDistinct id ess j = ground (arith, count-serving id 0 j ess)

non_empty-none : (xs : List ℕ) → none ≡ non_empty xs → xs ≡ []
non_empty-none [] e = refl
non_empty-none (x ∷ xs) e = absurd (none-ne-some _ e)

non_empty-some : (cs xs : List ℕ) → some cs ≡ non_empty xs → (xs ≡ cs) × (0 < length xs)
non_empty-some cs [] e = absurd (none-ne-some _ (sym e))
non_empty-some cs (x ∷ xs) e = (sym (some-injective _ _ e), omega arith)

module _ (score : ℕ → ℕ → ℕ) (sort_scored : List (ℕ × ℕ) → List (ℕ × ℕ)) (share : ℕ → ℕ → ℕ)
    (sorts : SortsScores sort_scored) where
  -- an answer that tries each of these backends, and each once
  abbrev pub Tries : List ℕ → Routed → Type 0
  Tries cs answer =
      (order : List ℕ) × (answer ≡ routed order) × ((i : ℕ) → count (is i) order ≡ count (is i) cs)

  route_entry-Tries :
      (reg : Registry) (reads : Reads) (e : RoutingEntry) (prefix : Option ℕ)
      → IsDistinct e.candidates
      → Tries e.candidates (route_entry score sort_scored share reg reads e prefix).1
  unfolding route_entry
  route_entry-Tries reg reads e prefix d = elim (Bool-cases (length e.candidates == 1)) [
    | inl one ↦ rw (one, route_entry) (e.candidates, refl, λ i. refl)
    | inr more ↦
        let r = unwrap_or (get_elem? reg.rotations e.rotation) 0 in
        rw (more, route_entry)
          (
            (ordered_candidates score sort_scored share reg.strategy reads e.candidates r prefix).0,
            refl,
            λ i.
                ordered_candidates_complete score sort_scored share sorts reg.strategy reads
                  e.candidates r prefix i d,
          )
  ]

  -- In a registry whose table is up to date, a request for a model that some backend lists is
  -- answered with exactly the backends that list it, each once; one for a model that no backend
  -- lists is refused as unknown, or sent to the only backend in flat passthrough mode.
  pub route_candidates-serving :
      (reg : Registry) (reads : Reads) (name : String) (prefix : Option ℕ)
      → IsRouted reg
      → let answer = (route_candidates score sort_scored share reg reads (some name) prefix).1 in
        (serving name 0 reg.entries ≡ []) × (answer ≡ flat_answer reg.routing_mode name)
        ⊎ (0 < length (serving name 0 reg.entries)) × Tries (serving name 0 reg.entries) answer
  unfolding route_candidates
  route_candidates-serving reg reads name prefix ok =
      elim (Option-cases (lookup String-discrete name reg.routing)) [
        | inl e ↦
            rw (e, route_candidates)
              (inl (non_empty-none _ (sym (ap candidates_of e) ∙ ok name), refl))
        | inr (entry, e) ↦
            let (same, some_left) =
              non_empty-some entry.candidates _ (sym (ap candidates_of e) ∙ ok name) in
            rw (e, route_candidates)
              (inr (
                some_left,
                subst
                    (λ cs. Tries cs (route_entry score sort_scored share reg reads entry prefix).1)
                    (sym same)
                    (route_entry-Tries reg reads entry prefix
                      (subst IsDistinct same (serving-IsDistinct name reg.entries))),
              ))
      ]

assemble-IsRouted :
    (backends : List Backend) (mode : RoutingMode) (entries : List (List CatalogEntry))
    → IsRouted (assemble backends mode entries)
unfolding assemble
assemble-IsRouted backends mode entries id = offered-build_routing id entries [] []

-- A new registry has a table that is up to date.
pub new-IsRouted :
    (backends : List Backend) (models : List (List String)) (mode : RoutingMode) (reg : Registry)
    → new backends models mode ≡ some reg
    → IsRouted reg
unfolding new
new-IsRouted backends models mode reg e =
    go
      (ltb 0 (length backends)
        && length backends == length models
        && mode_allows mode (length backends))
      e
  where
    built : Registry
    built = assemble backends mode (seed_entries backends models)

    go : (b : Bool) → (if b then some built else none) ≡ some reg → IsRouted reg
    go true e = subst IsRouted (some-injective _ _ e) (assemble-IsRouted backends mode _)
    go false e = absurd (none-ne-some _ e)

pub replace_entries-IsRouted :
    (idx : ℕ) (es : List CatalogEntry) (reg : Registry) → IsRouted (replace_entries idx es reg)
unfolding replace_entries
replace_entries-IsRouted idx es reg id =
    offered-build_routing id (set reg.entries idx es) reg.routing reg.rotations
