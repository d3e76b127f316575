-- ===== src/Backends/Catalog/Served.antt =====
-- The routing table lists, for each model, the backends that serve it.
use Prim.Native.String.{String}
use mathlib.Core.Option.{some-injective}
use token_weasel.Prelude.{
  ℕ, ◌+◌, ◌<◌, ◌≡◌, refl, sym, ap, subst, ◌∙◌, inl, inr, Bool, true, false, List, [], ◌∷◌, ◌++◌,
  Option, none, some, if◌then◌else◌, ite, arith, Option-cases, Bool-cases, append_assoc, append-nil,
}
use token_weasel.Prelude.Text.{String-discrete}
use token_weasel.Prelude.Assoc.{lookup, lookup-insert}
use token_weasel.Backends.Catalog.{
  CatalogEntry, RoutingEntry, RoutingMap, last, push_candidate, add_entry, add_entries,
  add_backends, build_routing,
}

-- whether a backend lists the model
abbrev pub lists : String → List CatalogEntry → Bool
lists id [] = false
lists id (e ∷ es) = ite (String-discrete e.id id) true (lists id es)

-- the backends from the index `i` on that list the model, in order
abbrev pub serving : String → ℕ → List (List CatalogEntry) → List ℕ
serving id i [] = []
serving id i (es ∷ ess) = if lists id es then i ∷ serving id (i + 1) ess else serving id (i + 1) ess

abbrev pub non_empty : List ℕ → Option (List ℕ)
non_empty [] = none
non_empty (x ∷ xs) = some (x ∷ xs)

abbrev pub candidates_of : Option RoutingEntry → Option (List ℕ)
candidates_of none = none
candidates_of (some e) = some e.candidates

abbrev pub offered : String → RoutingMap × List ℕ → Option (List ℕ)
offered id s = candidates_of (lookup String-discrete id s.0)

abbrev extend : ℕ → Option (List ℕ) → List ℕ
extend i none = i ∷ []
extend i (some cs) = push_candidate i cs

last-append : (cs : List ℕ) (i : ℕ) → last (cs ++ i ∷ []) ≡ some i
unfolding last
last-append [] i = refl
last-append (c ∷ []) i = refl
last-append (c ∷ d ∷ cs) i = last-append (d ∷ cs) i

push-push : (i : ℕ) (cs : List ℕ) → push_candidate i (push_candidate i cs) ≡ push_candidate i cs
unfolding push_candidate
push-push i cs = ground (arith, last-append cs i)

extend-extend : (i : ℕ) (o : Option (List ℕ)) → extend i (some (extend i o)) ≡ extend i o
unfolding push_candidate last
extend-extend i none = ground arith
extend-extend i (some cs) = push-push i cs

offered-add_entry :
    (id : String) (previous : RoutingMap) (i : ℕ) (e : CatalogEntry) (s : RoutingMap × List ℕ)
    → offered id (add_entry previous i e s)
      ≡ ite (String-discrete e.id id) (some (extend i (offered id s))) (offered id s)
unfolding add_entry
offered-add_entry id previous i e (routing, rotations) =
    elim (Option-cases (lookup String-discrete e.id routing)) [
      | inl n ↦ rw (n, add_entry, lookup-insert) (ground arith)
      | inr (r, n) ↦ rw (n, add_entry, lookup-insert) (ground arith)
    ]

offered-add_entries :
    (id : String) (previous : RoutingMap) (i : ℕ) (es : List CatalogEntry)
    → (s : RoutingMap × List ℕ)
    → offered id (add_entries previous i es s)
      ≡ (if lists id es then some (extend i (offered id s)) else offered id s)
unfolding add_entries
offered-add_entries id previous i [] s = refl
offered-add_entries id previous i (e ∷ es) s = ground (
  arith,
  offered-add_entries id previous i es (add_entry previous i e s),
  offered-add_entry id previous i e s,
  extend-extend i (offered id s),
)

-- the last candidate is below `i`
abbrev Below : ℕ → Option (List ℕ) → Type 0
Below i none = Unit {0}
Below i (some cs) = (l : ℕ) → last cs ≡ some l → l < i

-- what the backends from `i` on add to what there is
abbrev with_later : Option (List ℕ) → List ℕ → Option (List ℕ)
with_later none xs = non_empty xs
with_later (some cs) xs = some (cs ++ xs)

push-Below : (i : ℕ) (cs : List ℕ) → Below i (some cs) → push_candidate i cs ≡ cs ++ i ∷ []
unfolding push_candidate
push-Below i cs b = elim (Option-cases (last cs)) [
  | inl n ↦ rw n refl
  | inr (l, e) ↦ rw e (ground (arith, b l e))
]

with_later-extend :
    (i : ℕ) (o : Option (List ℕ)) (xs : List ℕ)
    → Below i o
    → with_later (some (extend i o)) xs ≡ with_later o (i ∷ xs)
with_later-extend i none xs b = refl
with_later-extend i (some cs) xs b = rw (push-Below i cs b) (ap some (append_assoc cs (i ∷ []) xs))

extend-Below : (i : ℕ) (o : Option (List ℕ)) → Below i o → Below (i + 1) (some (extend i o))
unfolding last
extend-Below i none b l e = omega (arith, some-injective i l e)
extend-Below i (some cs) b l e =
    omega (arith, some-injective i l (sym (last-append cs i) ∙ rw (push-Below i cs b) at e))

Below-suc : (i : ℕ) (o : Option (List ℕ)) → Below i o → Below (i + 1) o
Below-suc i none b = tt
Below-suc i (some cs) b = λ l e. omega (arith, b l e)

offered-add_backends :
    (id : String) (previous : RoutingMap) (i : ℕ) (ess : List (List CatalogEntry))
    → (s : RoutingMap × List ℕ) → Below i (offered id s)
    → offered id (add_backends previous i ess s) ≡ with_later (offered id s) (serving id i ess)
unfolding add_backends
offered-add_backends id previous i [] s b = with_later-nil (offered id s)
  where
    with_later-nil : (o : Option (List ℕ)) → o ≡ with_later o []
    with_later-nil none = refl
    with_later-nil (some cs) = ap some (sym (append-nil cs))
offered-add_backends id previous i (es ∷ ess) s b =
    let s' = add_entries previous i es s in
    let later = serving id (i + 1) ess in
    let rest : Below (i + 1) (offered id s')
        → offered id (add_backends previous (i + 1) ess s') ≡ with_later (offered id s') later =
      offered-add_backends id previous (i + 1) ess s' in
    elim (Bool-cases (lists id es)) [
      | inl e ↦
          let st : offered id s' ≡ some (extend i (offered id s)) =
            offered-add_entries id previous i es s ∙ rw e refl in
          rw e (
            rest (subst (Below (i + 1)) (sym st) (extend-Below i (offered id s) b))
            ∙ ap (λ o. with_later o later) st
            ∙ with_later-extend i (offered id s) later b)
      | inr e ↦
          let st : offered id s' ≡ offered id s =
            offered-add_entries id previous i es s ∙ rw e refl in
          rw e (
            rest (subst (Below (i + 1)) (sym st) (Below-suc i (offered id s) b))
            ∙ ap (λ o. with_later o later) st)
    ]

-- The routing table offers a model exactly to the backends that list it, each once and in the
-- order of the backends, and it has no entry for a model that none of them lists.
pub offered-build_routing :
    (id : String) (entries : List (List CatalogEntry)) (previous : RoutingMap) (rotations : List ℕ)
    → offered id (build_routing entries previous rotations) ≡ non_empty (serving id 0 entries)
unfolding build_routing lookup
offered-build_routing id entries previous rotations =
    offered-add_backends id previous 0 entries ([], rotations) tt
