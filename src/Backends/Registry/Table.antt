-- ===== src/Backends/Registry/Table.antt =====
-- The routing table of a registry in use is up to date.
use Prim.Native.String.{String}
use mathlib.Core.Option.{none-ne-some, some-injective}
use token_weasel.Prelude.{
  ℕ, ◌≡◌, subst, inl, inr, List, Option, none, some, get_elem?, Option-cases, Bool-cases, length,
  ◌==◌,
}
use token_weasel.Prelude.Text.{String-discrete}
use token_weasel.Prelude.Assoc.{lookup}
use token_weasel.Backends.Catalog.{CatalogEntry, RoutingEntry}
use token_weasel.Backends.Placement.{LbStrategy, Reads}
use token_weasel.Backends.Registry.{
  Backend, Registry, RoutingMode, new, with_load_balancing, set_backend_models, route_candidates,
  route_entry,
}
use token_weasel.Backends.Registry.Routes.{IsRouted, replace_entries-IsRouted, new-IsRouted}

module _ (score : ℕ → ℕ → ℕ) (sort_scored : List (ℕ × ℕ) → List (ℕ × ℕ)) (share : ℕ → ℕ → ℕ) where
  -- how a registry comes about, and what start-up, polls and requests do to it
  pub data InUse : Registry → Type 0 where
    made :
        (backends : List Backend) (models : List (List String)) (mode : RoutingMode)
        {reg : Registry}
        → new backends models mode ≡ some reg
        → InUse reg
    configured :
        {reg : Registry} (strategy : LbStrategy)
        → InUse reg
        → InUse (with_load_balancing reg strategy)
    polled :
        {reg reg' : Registry} (idx : ℕ) (es : List CatalogEntry)
        → InUse reg
        → set_backend_models idx es reg ≡ some reg'
        → InUse reg'
    requested :
        {reg : Registry} (reads : Reads) (model : Option String) (prefix : Option ℕ)
        → InUse reg
        → InUse (route_candidates score sort_scored share reg reads model prefix).0

  set_backend_models-IsRouted :
      (idx : ℕ) (es : List CatalogEntry) (reg reg' : Registry)
      → set_backend_models idx es reg ≡ some reg'
      → IsRouted reg'
  unfolding set_backend_models
  set_backend_models-IsRouted idx es reg reg' e = elim (Option-cases (get_elem? reg.backends idx)) [
    | inl out ↦ absurd (none-ne-some _ (rw (out, set_backend_models) at e))
    | inr (b, at_idx) ↦
        subst IsRouted (some-injective _ _ (rw (at_idx, set_backend_models) at e))
          (replace_entries-IsRouted idx _ reg)
  ]

  route_entry-IsRouted :
      (reg : Registry) (reads : Reads) (e : RoutingEntry) (prefix : Option ℕ)
      → IsRouted reg
      → IsRouted (route_entry score sort_scored share reg reads e prefix).0
  unfolding route_entry
  route_entry-IsRouted reg reads e prefix v = elim (Bool-cases (length e.candidates == 1)) [
    | inl one ↦ rw (one, route_entry) v
    | inr more ↦ rw (more, route_entry) v
  ]

  route_candidates-IsRouted :
      (reg : Registry) (reads : Reads) (model : Option String) (prefix : Option ℕ)
      → IsRouted reg
      → IsRouted (route_candidates score sort_scored share reg reads model prefix).0
  unfolding route_candidates
  route_candidates-IsRouted reg reads none prefix v = v
  route_candidates-IsRouted reg reads (some name) prefix v =
      elim (Option-cases (lookup String-discrete name reg.routing)) [
        | inl e ↦ rw (e, route_candidates) v
        | inr (entry, e) ↦ rw (e, route_candidates) (route_entry-IsRouted reg reads entry prefix v)
      ]

  -- From start-up on, whatever polls and requests there were, the routing table offers each model
  -- exactly to the backends that list it at present, and has no entry for any other model.
  pub InUse-IsRouted : {reg : Registry} → InUse reg → IsRouted reg
  unfolding with_load_balancing
  InUse-IsRouted (made backends models mode {reg} e) = new-IsRouted backends models mode reg e
  InUse-IsRouted (configured strategy u) = InUse-IsRouted u
  InUse-IsRouted (polled {reg} {reg'} idx es u e) = set_backend_models-IsRouted idx es reg reg' e
  InUse-IsRouted (requested {reg} reads model prefix u) =
      route_candidates-IsRouted reg reads model prefix (InUse-IsRouted u)
