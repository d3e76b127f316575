-- ===== src/Backends/Catalog/Rotation.antt =====
-- A model that stays in the catalog keeps its place in the rotation.
use Prim.Native.String.{String}
use token_weasel.Prelude.{
  ℕ, zero, suc, ◌+◌, ◌≤◌, ◌<◌, ◌≡◌, refl, ◌∙◌, ◌⊎◌, inl, inr, List, [], ◌∷◌, ◌++◌, Option, none,
  some, length, get_elem?, arith, Option-cases,
}
use token_weasel.Prelude.Text.{String-discrete}
use token_weasel.Prelude.Assoc.{lookup, lookup-insert}
use token_weasel.Backends.Catalog.{
  CatalogEntry, RoutingEntry, RoutingMap, rotation_for, add_entry, add_entries, add_backends,
  build_routing,
}

abbrev rotation_of : Option RoutingEntry → Option ℕ
rotation_of none = none
rotation_of (some e) = some e.rotation

abbrev Keeps : String → ℕ → RoutingMap × List ℕ → Type 0
Keeps id r s =
    (rotation_of (lookup String-discrete id s.0) ≡ none)
    ⊎ (rotation_of (lookup String-discrete id s.0) ≡ some r)

-- the counters of `rotations` are unchanged in `later`
abbrev Extends : List ℕ → List ℕ → Type 0
Extends rotations later =
    (length rotations ≤ length later)
    × ((k : ℕ) → k < length rotations → get_elem? later k ≡ get_elem? rotations k)

get_elem?-append :
    (xs ys : List ℕ) (k : ℕ) → k < length xs → get_elem? (xs ++ ys) k ≡ get_elem? xs k
get_elem?-append [] ys k h = ground arith
get_elem?-append (x ∷ xs) ys zero h = refl
get_elem?-append (x ∷ xs) ys (suc k) h = get_elem?-append xs ys k (omega arith)

length-snoc : (xs : List ℕ) (x : ℕ) → length (xs ++ x ∷ []) ≡ length xs + 1
length-snoc [] x = refl
length-snoc (y ∷ xs) x = omega (arith, length-snoc xs x)

module _ (id : String) (previous : RoutingMap) (r : ℕ)
    (was : rotation_of (lookup String-discrete id previous) ≡ some r) where
  add_entry-Keeps :
      (i : ℕ) (e : CatalogEntry) (s : RoutingMap × List ℕ)
      → Keeps id r s
      → Keeps id r (add_entry previous i e s)
  unfolding add_entry rotation_for
  add_entry-Keeps i e (routing, rotations) k =
      elim (Option-cases (lookup String-discrete e.id routing)) [
        | inl n ↦ rw (n, add_entry, lookup-insert) (ground (arith, was, k))
        | inr (x, n) ↦ rw (n, add_entry, lookup-insert) (ground (arith, k))
      ]

  add_entries-Keeps :
      (i : ℕ) (es : List CatalogEntry) (s : RoutingMap × List ℕ)
      → Keeps id r s
      → Keeps id r (add_entries previous i es s)
  unfolding add_entries
  add_entries-Keeps i [] s k = k
  add_entries-Keeps i (e ∷ es) s k =
      add_entries-Keeps i es (add_entry previous i e s) (add_entry-Keeps i e s k)

  add_backends-Keeps :
      (i : ℕ) (ess : List (List CatalogEntry)) (s : RoutingMap × List ℕ)
      → Keeps id r s
      → Keeps id r (add_backends previous i ess s)
  unfolding add_backends
  add_backends-Keeps i [] s k = k
  add_backends-Keeps i (es ∷ ess) s k =
      add_backends-Keeps (i + 1) ess (add_entries previous i es s) (add_entries-Keeps i es s k)

Extends-refl : (xs : List ℕ) → Extends xs xs
Extends-refl xs = (omega arith, λ k h. refl)

Extends-trans : (xs ys zs : List ℕ) → Extends xs ys → Extends ys zs → Extends xs zs
Extends-trans xs ys zs (a, f) (b, g) = (omega arith, λ k h. g k (omega arith) ∙ f k h)

Extends-snoc : (xs : List ℕ) (x : ℕ) → Extends xs (xs ++ x ∷ [])
Extends-snoc xs x = (omega (arith, length-snoc xs x), λ k h. get_elem?-append xs (x ∷ []) k h)

module _ (previous : RoutingMap) where
  add_entry-Extends :
      (i : ℕ) (e : CatalogEntry) (s : RoutingMap × List ℕ)
      → Extends s.1 (add_entry previous i e s).1
  unfolding add_entry rotation_for
  add_entry-Extends i e (routing, rotations) =
      elim (Option-cases (lookup String-discrete e.id routing)) [
        | inr (x, n) ↦ rw (n, add_entry) (Extends-refl rotations)
        | inl n ↦ elim (Option-cases (lookup String-discrete e.id previous)) [
          | inl m ↦ rw (n, m, add_entry, rotation_for) (Extends-snoc rotations 0)
          | inr (x, m) ↦ rw (n, m, add_entry, rotation_for) (Extends-refl rotations)
        ]
      ]

  add_entries-Extends :
      (i : ℕ) (es : List CatalogEntry) (s : RoutingMap × List ℕ)
      → Extends s.1 (add_entries previous i es s).1
  unfolding add_entries
  add_entries-Extends i [] s = Extends-refl s.1
  add_entries-Extends i (e ∷ es) s =
      Extends-trans s.1 (add_entry previous i e s).1 _ (add_entry-Extends i e s)
        (add_entries-Extends i es (add_entry previous i e s))

  add_backends-Extends :
      (i : ℕ) (ess : List (List CatalogEntry)) (s : RoutingMap × List ℕ)
      → Extends s.1 (add_backends previous i ess s).1
  unfolding add_backends
  add_backends-Extends i [] s = Extends-refl s.1
  add_backends-Extends i (es ∷ ess) s =
      Extends-trans s.1 (add_entries previous i es s).1 _ (add_entries-Extends i es s)
        (add_backends-Extends (i + 1) ess (add_entries previous i es s))

-- A rebuild of the table keeps the rotation: a model that had an entry and has one afterwards has
-- the same counter, and no counter that was there has another value.
build_routing-rotation :
    (entries : List (List CatalogEntry)) (previous : RoutingMap) (rotations : List ℕ)
    → (id : String) (r : ℕ) → rotation_of (lookup String-discrete id previous) ≡ some r
    → let (routing, rotations') = build_routing entries previous rotations in
      ((rotation_of (lookup String-discrete id routing) ≡ none)
        ⊎ (rotation_of (lookup String-discrete id routing) ≡ some r))
      × Extends rotations rotations'
unfolding build_routing lookup
build_routing-rotation entries previous rotations id r was = (
  add_backends-Keeps id previous r was 0 entries ([], rotations) (inl refl),
  add_backends-Extends previous 0 entries ([], rotations),
)
