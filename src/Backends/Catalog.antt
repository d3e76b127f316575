-- ===== src/Backends/Catalog.antt =====
-- The model catalog and the routing table of crates/twl-backends/src/lib.rs. A rotation counter is
-- shared by reference: `rotation` is its place in the list of all counters. Backend indices are
-- below 2 ^ 32, so that `as u32` keeps them.
pub mod Served
pub mod Unique
pub mod Rotation
use Prim.Native.String.{String}
use token_weasel.Prelude.{
  ℕ, ◌+◌, Bool, true, false, not, ◌||◌, List, [], ◌∷◌, ◌++◌, Option, none, some, length, ◌==◌,
  if◌then◌else◌, ite,
}
use token_weasel.Prelude.Text.{◌=ₛ◌, String-discrete}
use token_weasel.Prelude.Assoc.{lookup, insert}
use token_weasel.Json.{Value, str, obj, field_insert, end}

-- `ModelKind::as_str`; there is only one kind.
abbrev pub embedding : String
embedding = "embedding"

pub record CatalogEntry : Type 0 where
  pub id : String
  pub raw : Value

pub record RoutingEntry : Type 0 where
  pub candidates : List ℕ
  pub rotation : ℕ

abbrev pub RoutingMap : Type 0
RoutingMap = List (String × RoutingEntry)

-- `overrides` holds the models of the kind `embedding`.
abbrev pub is_in : String → List String → Bool
is_in id [] = false
is_in id (k ∷ ks) = ite (String-discrete k id) true (is_in id ks)

abbrev set_type : Value → Value
set_type (obj fs) = obj (field_insert "type" (str embedding) fs)
set_type v = v

unfoldable pub apply_type_override : Value → List String → String → Value
apply_type_override raw overrides id = if is_in id overrides then set_type raw else raw

unfoldable pub model_allowed : Option (List String) → String → Bool
model_allowed none id = true
model_allowed (some f) id = is_in id f

-- `retain` with the set `seen`
unfoldable pub retain_unseen : List String → List CatalogEntry → List CatalogEntry
retain_unseen seen [] = []
retain_unseen seen (e ∷ es) =
    if is_in e.id seen then retain_unseen seen es else e ∷ retain_unseen (e.id ∷ seen) es

unfoldable pub deduplicate_backend_entries : List CatalogEntry → List CatalogEntry
deduplicate_backend_entries entries = retain_unseen [] entries

unfoldable pub last : List ℕ → Option ℕ
last [] = none
last (x ∷ []) = some x
last (x ∷ y ∷ xs) = last (y ∷ xs)

abbrev is_last : Option ℕ → ℕ → Bool
is_last none i = false
is_last (some l) i = l == i

unfoldable pub push_candidate : ℕ → List ℕ → List ℕ
unfolding last
push_candidate i cs = if is_last (last cs) i then cs else cs ++ i ∷ []

-- the counter of a vacant entry: the previous one, or a new one that starts at 0
unfoldable pub rotation_for : Option RoutingEntry → List ℕ → ℕ × List ℕ
rotation_for (some e) rotations = (e.rotation, rotations)
rotation_for none rotations = (length rotations, rotations ++ 0 ∷ [])

-- one entry of one backend, on the table built so far and the counters
unfoldable pub add_entry : RoutingMap → ℕ → CatalogEntry → RoutingMap × List ℕ → RoutingMap × List ℕ
add_entry previous i entry (routing, rotations) = elim (lookup String-discrete entry.id routing) [
  | none ↦
      let (rotation, rotations') =
        rotation_for (lookup String-discrete entry.id previous) rotations in
      (
        insert String-discrete entry.id (record { candidates = i ∷ []; rotation = rotation })
            routing,
        rotations',
      )
  | some e ↦ (
    insert String-discrete entry.id (record e { candidates = push_candidate i e.candidates })
        routing,
    rotations,
  )
]

unfoldable pub add_entries :
    RoutingMap → ℕ → List CatalogEntry → RoutingMap × List ℕ → RoutingMap × List ℕ
add_entries previous i [] s = s
add_entries previous i (e ∷ es) s = add_entries previous i es (add_entry previous i e s)

unfoldable pub add_backends :
    RoutingMap → ℕ → List (List CatalogEntry) → RoutingMap × List ℕ → RoutingMap × List ℕ
add_backends previous i [] s = s
add_backends previous i (es ∷ ess) s =
    add_backends previous (i + 1) ess (add_entries previous i es s)

-- With no previous table, `previous` is empty.
unfoldable pub build_routing : List (List CatalogEntry) → RoutingMap → List ℕ → RoutingMap × List ℕ
build_routing entries previous rotations = add_backends previous 0 entries ([], rotations)
