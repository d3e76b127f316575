-- ===== src/Watchdog/Offers.antt =====
-- What the routing table of crates/twl-backends/src/lib.rs and the entries behind it offer a backend
-- for, as crates/twl-server/src/watchdog.rs changes it.
use Prim.Native.String.{String}
use mathlib.Core.Option.{some-injective, none-ne-some}
use token_weasel.Prelude.{
  ℕ, ◌≡◌, refl, ap, subst, ◌∙◌, inl, inr, true, ◌&&◌, List, [], ◌∷◌, Option, none, some,
  Option-cases, length, get_elem?, if◌then◌else◌, arith,
}
use token_weasel.Prelude.Text.{String-discrete}
use token_weasel.Provider.Models.{ModelEntry}
use token_weasel.Backends.Catalog.{CatalogEntry, model_allowed, is_in, deduplicate_backend_entries}
use token_weasel.Backends.Catalog.Served.{lists, serving, offered, non_empty}
use token_weasel.Backends.Placement.Order.{count, is}
use token_weasel.Backends.Registry.{
  Backend, allowed_entries, Registry, replace_entries, set_backend_models,
}
use token_weasel.Backends.Registry.Routes.{IsRouted}
use token_weasel.Backends.Registry.Reach.{length-set}
use token_weasel.Watchdog.{ids_of, to_catalog, same_ids}

abbrev pub count_candidate : ℕ → Option (List ℕ) → ℕ
count_candidate idx none = 0
count_candidate idx (some cs) = count (is idx) cs

-- how often the routing table has the backend among the candidates of a model
abbrev pub offers : ℕ → String → Registry → ℕ
offers idx id reg = count_candidate idx (offered id (reg.routing, reg.rotations))

-- the backend is a candidate of exactly these models, as far as its filter allows them
abbrev pub OffersAll : ℕ → Backend → List String → Registry → Type 0
OffersAll idx b ids reg =
    (id : String)
    → offers idx id reg ≡ (if model_allowed b.model_filter id && is_in id ids then 1 else 0)

-- how often the catalog's entries list the model for the backend
abbrev pub listings : ℕ → String → Registry → ℕ
listings idx id reg = count (is idx) (serving id 0 reg.entries)

abbrev pub ListsAll : ℕ → Backend → List String → Registry → Type 0
ListsAll idx b ids reg =
    (id : String)
    → listings idx id reg ≡ (if model_allowed b.model_filter id && is_in id ids then 1 else 0)

pub offers-listings :
    (idx : ℕ) (id : String) (reg : Registry)
    → IsRouted reg
    → offers idx id reg ≡ listings idx id reg
offers-listings idx id reg ok =
    ap (count_candidate idx) (ok id) ∙ count-non_empty (serving id 0 reg.entries)
  where
    count-non_empty : (xs : List ℕ) → count_candidate idx (non_empty xs) ≡ count (is idx) xs
    count-non_empty [] = refl
    count-non_empty (x ∷ xs) = refl

pub lists-to_catalog :
    (id : String) (es : List ModelEntry) → lists id (to_catalog es) ≡ is_in id (ids_of es)
lists-to_catalog id [] = refl
lists-to_catalog id (e ∷ es) = ground (arith, lists-to_catalog id es)

pub same_ids-eq : (is js : List String) → same_ids is js ≡ true → is ≡ js
unfolding same_ids
same_ids-eq [] [] h = refl
same_ids-eq [] (j ∷ js) h = ground arith
same_ids-eq (i ∷ is) [] h = ground arith
same_ids-eq (i ∷ is) (j ∷ js) h = elim (String-discrete i j) [
  | yes p ↦ ground (arith, same_ids-eq is js)
  | no p ↦ ground arith
]

pub set_backend_models-sized :
    (k : ℕ) (entries : List CatalogEntry) (reg reg' : Registry)
    → set_backend_models k entries reg ≡ some reg'
    → length reg.entries ≡ length reg.backends
    → (reg'.backends ≡ reg.backends) × (length reg'.entries ≡ length reg'.backends)
unfolding set_backend_models replace_entries
set_backend_models-sized k entries reg reg' h e = elim (Option-cases (get_elem? reg.backends k)) [
  | inl gone ↦ absurd (none-ne-some _ (rw (gone, set_backend_models) at h))
  | inr (b, found) ↦
      let same : replace_entries k (deduplicate_backend_entries (allowed_entries b entries)) reg
          ≡ reg' =
        some-injective _ _ (rw (found, set_backend_models) at h) in
      subst (λ r. (r.backends ≡ reg.backends) × (length r.entries ≡ length r.backends)) same
        (refl, length-set reg.entries k _ ∙ e)
]
