-- ===== src/Backends/Registry/Refresh.antt =====
-- What a poll of one backend changes, and what it leaves.
use Prim.Native.String.{String}
use token_weasel.Prelude.{
  ℕ, zero, suc, ◌+◌, ◌<◌, ◌≡◌, refl, false, ◌&&◌, List, [], ◌∷◌, Option, none, some, length, ◌==◌,
  if◌then◌else◌, get_elem?, set, arith,
}
use token_weasel.Backends.Catalog.{
  CatalogEntry, model_allowed, is_in, retain_unseen, deduplicate_backend_entries,
}
use token_weasel.Backends.Catalog.Served.{lists, serving}
use token_weasel.Backends.Placement.Order.{count, is}
use token_weasel.Backends.Registry.{
  Backend, Registry, allowed_entries, set_backend_models, replace_entries,
}
use token_weasel.Backends.Registry.Routes.{IsRouted, replace_entries-IsRouted}

-- whether the backend at a place of the catalog lists the model
abbrev lists_at : String → Option (List CatalogEntry) → ℕ
lists_at id none = 0
lists_at id (some es) = if lists id es then 1 else 0

count-below :
    (id : String) (i j : ℕ) (ess : List (List CatalogEntry))
    → j < i
    → count (is j) (serving id i ess) ≡ 0
count-below id i j [] h = refl
count-below id i j (es ∷ ess) h = ground (arith, count-below id (i + 1) j ess)

count-serving_at :
    (id : String) (i k : ℕ) (ess : List (List CatalogEntry))
    → count (is (i + k)) (serving id i ess) ≡ lists_at id (get_elem? ess k)
count-serving_at id i k [] = refl
count-serving_at id i zero (es ∷ ess) = ground (arith, count-below id (i + 1) i ess)
count-serving_at id i (suc k) (es ∷ ess) = ground (arith, count-serving_at id (i + 1) k ess, is_suc)
  where
    is_suc : i + suc k ≡ i + 1 + k
    is_suc = omega arith

lists-allowed :
    (id : String) (b : Backend) (es : List CatalogEntry)
    → lists id (allowed_entries b es) ≡ (model_allowed b.model_filter id && lists id es)
unfolding allowed_entries
lists-allowed id b [] = ground arith
lists-allowed id b (e ∷ es) = ground (arith, lists-allowed id b es)

lists-retain_unseen :
    (id : String) (seen : List String) (es : List CatalogEntry)
    → is_in id seen ≡ false
    → lists id (retain_unseen seen es) ≡ lists id es
unfolding retain_unseen
lists-retain_unseen id seen [] h = refl
lists-retain_unseen id seen (e ∷ es) h =
    ground (arith, lists-retain_unseen id seen es, lists-retain_unseen id (e.id ∷ seen) es)

pub get_elem?-set :
    {A : Type 0} (xs : List A) (i k : ℕ) (v : A)
    → i < length xs
    → get_elem? (set xs i v) k ≡ (if k == i then some v else get_elem? xs k)
get_elem?-set [] i k v h = ground arith
get_elem?-set (x ∷ xs) zero zero v h = refl
get_elem?-set (x ∷ xs) zero (suc k) v h = ground arith
get_elem?-set (x ∷ xs) (suc i) zero v h = ground arith
get_elem?-set (x ∷ xs) (suc i) (suc k) v h = ground (arith, get_elem?-set xs i k v)

-- A poll of a backend puts the table up to date: for each model, that backend is now offered
-- exactly if the poll lists the model and the filter of the backend allows it, and every other
-- backend is offered exactly if it was before.
pub set_backend_models-offers :
    (idx : ℕ) (polled : List CatalogEntry) (reg : Registry) (b : Backend)
    → get_elem? reg.backends idx ≡ some b
    → idx < length reg.entries
    → (reg' : Registry) × (set_backend_models idx polled reg ≡ some reg')
      × IsRouted reg'
      × ((id : String) (k : ℕ)
          → count (is k) (serving id 0 reg'.entries) ≡ (
              if k == idx
              then (if model_allowed b.model_filter id && lists id polled then 1 else 0)
              else count (is k) (serving id 0 reg.entries)))
unfolding set_backend_models replace_entries deduplicate_backend_entries
set_backend_models-offers idx polled reg b e h =
    let es = deduplicate_backend_entries (allowed_entries b polled) in
    (
      replace_entries idx es reg,
      rw (e, set_backend_models) refl,
      replace_entries-IsRouted idx es reg,
      λ id k. ground (
        arith,
        count-serving_at id 0 k (set reg.entries idx es),
        count-serving_at id 0 k reg.entries,
        get_elem?-set reg.entries idx k es h,
        lists-deduplicate id (allowed_entries b polled),
        lists-allowed id b polled,
        zero_left k,
      ),
    )
  where
    zero_left : (k : ℕ) → 0 + k ≡ k
    zero_left k = omega arith

    lists-deduplicate :
        (id : String) (es : List CatalogEntry)
        → lists id (deduplicate_backend_entries es) ≡ lists id es
    lists-deduplicate id es = lists-retain_unseen id [] es refl
