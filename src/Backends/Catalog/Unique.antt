-- ===== src/Backends/Catalog/Unique.antt =====
-- Where a model is listed more than once, its first entry is the one that is kept.
use Prim.Native.String.{String}
use token_weasel.Prelude.{
  ℕ, ◌+◌, ◌≡◌, refl, true, false, List, [], ◌∷◌, Option, none, some, if◌then◌else◌, ite, arith,
}
use token_weasel.Prelude.Text.{String-discrete}
use token_weasel.Backends.Catalog.{CatalogEntry, is_in, retain_unseen, deduplicate_backend_entries}
use token_weasel.Backends.Catalog.Served.{lists}

abbrev find_entry : String → List CatalogEntry → Option CatalogEntry
find_entry id [] = none
find_entry id (e ∷ es) = ite (String-discrete e.id id) (some e) (find_entry id es)

abbrev count_id : String → List CatalogEntry → ℕ
count_id id [] = 0
count_id id (e ∷ es) = ite (String-discrete e.id id) 1 0 + count_id id es

retain_seen :
    (id : String) (seen : List String) (es : List CatalogEntry)
    → is_in id seen ≡ true
    → count_id id (retain_unseen seen es) ≡ 0
unfolding retain_unseen
retain_seen id seen [] h = refl
retain_seen id seen (e ∷ es) h =
    ground (arith, retain_seen id seen es, retain_seen id (e.id ∷ seen) es)

retain_new :
    (id : String) (seen : List String) (es : List CatalogEntry)
    → is_in id seen ≡ false
    → (count_id id (retain_unseen seen es) ≡ (if lists id es then 1 else 0))
      × (find_entry id (retain_unseen seen es) ≡ find_entry id es)
unfolding retain_unseen
retain_new id seen [] h = (refl, refl)
retain_new id seen (e ∷ es) h =
    ground (
      arith,
      retain_seen id (e.id ∷ seen) es,
      retain_new id seen es,
      retain_new id (e.id ∷ seen) es,
    )

-- Of a list of catalog entries, of one backend or of all in their order: the entries that are
-- retained have each listed model once, and the entry retained for it is its first.
deduplicate_backend_entries_first :
    (id : String) (es : List CatalogEntry)
    → (count_id id (deduplicate_backend_entries es) ≡ (if lists id es then 1 else 0))
      × (find_entry id (deduplicate_backend_entries es) ≡ find_entry id es)
unfolding deduplicate_backend_entries
deduplicate_backend_entries_first id es = retain_new id [] es refl
