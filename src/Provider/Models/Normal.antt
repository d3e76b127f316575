-- ===== src/Provider/Models/Normal.antt =====
-- Every model that a listing of crates/twl-provider/src/lib.rs yields is named by the answer, and
-- is a uniform object.
use Prim.Native.String.{String}
use token_weasel.Prelude.{
  ◌≡◌, refl, ◌∙◌, ◌⊎◌, inl, inr, false, List, [], ◌∷◌, Option, none, some, and_then, unwrap_or,
  is_some, All, Bool-cases, Option-cases, arith,
}
use token_weasel.Prelude.Text.{◌=ₛ◌, is_empty}
use token_weasel.Json.{
  Value, null, bool, num, float, arr, obj, str, Items, nil, cons, Fields, field_get, field_insert,
  get, as_str, as_array,
}
use token_weasel.Json.Insert.{field_get-insert}
use token_weasel.Provider.Models.{
  ProviderKind, llama_cpp, ollama, lm_studio, deep_seek, open_router, vllm, ModelKind, ModelEntry,
  Listing, parsed, name, detect_model_kind, preserved_fields, not_null, insert_some, preserve,
  with_context, type_of, base_fields, normalized_model, listed, openai_id, ollama_id, parse_list,
  parse_openai_list, parse_ollama, parse_models,
}

get-insert_some :
    (j k : String) (o : Option Value) (fs : Fields)
    → (j =ₛ k) ≡ false
    → field_get k (insert_some j o fs) ≡ field_get k fs
get-insert_some j k none fs e = refl
get-insert_some j k (some v) fs e = field_get-insert j k v fs ∙ rw e refl

get-preserve :
    (source : Value) (ks : List String) (k : String) (fs : Fields)
    → All (λ j. (j =ₛ k) ≡ false) ks
    → field_get k (preserve source ks fs) ≡ field_get k fs
unfolding preserve
get-preserve source [] k fs a = refl
get-preserve source (j ∷ ks) k fs (e, a) =
    get-preserve source ks k (insert_some j (not_null (get j source)) fs) a
    ∙ get-insert_some j k (not_null (get j source)) fs e

get-with_context :
    (source : Value) (k : String) (fs : Fields)
    → ("context_length" =ₛ k) ≡ false
    → field_get k (with_context source fs) ≡ field_get k fs
unfolding with_context
get-with_context source k fs e = elim (Bool-cases (is_some (field_get "context_length" fs))) [
  | inl h ↦ rw (h, with_context) refl
  | inr h ↦ rw (h, with_context) (get-insert_some "context_length" k _ fs e)
]

-- what stands under a key that is none of the optional ones
get-inner :
    (id owned_by : String) (source : Value) (k : String)
    → All (λ j. (j =ₛ k) ≡ false) preserved_fields
    → ("context_length" =ₛ k) ≡ false
    → field_get k (with_context source (preserve source preserved_fields (base_fields id owned_by)))
      ≡ field_get k (base_fields id owned_by)
get-inner id owned_by source k a e =
    get-with_context source k _ e ∙ get-preserve source preserved_fields k _ a

get_type :
    (o : Option Value) (fs : Fields)
    → field_get "type" fs ≡ none
    → field_get "type" (insert_some "type" o fs) ≡ o
get_type none fs e = e
get_type (some v) fs e = field_get-insert "type" "type" v fs

-- What a normalized model says of itself, whatever the provider's object holds.
abbrev Describes : String → String → Option ModelKind → Value → Type 0
Describes id owned_by kind raw =
    (get "id" raw ≡ some (str id))
    × (get "object" raw ≡ some (str "model"))
    × (get "owned_by" raw ≡ some (str owned_by))
    × (get "type" raw ≡ type_of kind)

normalized_model-Describes :
    (id : String) (source : Value) (owned_by : String)
    → Describes id owned_by (detect_model_kind source) (normalized_model id source owned_by)
unfolding normalized_model get field_get field_insert
normalized_model-Describes id source owned_by =
    let inner = with_context source (preserve source preserved_fields (base_fields id owned_by)) in
    let kind = type_of (detect_model_kind source) in
    (
      get-insert_some "type" "id" kind inner refl
          ∙ get-inner id owned_by source "id" (refl, (refl, (refl, (refl, (refl, tt))))) refl,
      get-insert_some "type" "object" kind inner refl
          ∙ get-inner id owned_by source "object" (refl, (refl, (refl, (refl, (refl, tt))))) refl,
      get-insert_some "type" "owned_by" kind inner refl
          ∙ get-inner id owned_by source "owned_by" (refl, (refl, (refl, (refl, (refl, tt))))) refl,
      get_type kind inner
          (get-inner id owned_by source "type" (refl, (refl, (refl, (refl, (refl, tt))))) refl),
    )

abbrev pub entries_of : Listing → List ModelEntry
entries_of (parsed es) = es
entries_of _ = []

-- an entry with an id, whose object names the id and is a model
abbrev pub IsNamed : ModelEntry → Type 0
IsNamed e =
    (is_empty e.id ≡ false)
    × (get "id" e.raw ≡ some (str e.id))
    × (get "object" e.raw ≡ some (str "model"))

-- where a provider's answer keeps its models
abbrev list_key : ProviderKind → String
list_key ollama = "models"
list_key _ = "data"

-- the list of models in an answer, if the answer has the provider's shape
abbrev pub list_in : ProviderKind → Option Value → Option Items
list_in kind body = and_then (and_then body (get (list_key kind))) as_array

-- an item says its name
abbrev pub Says : ProviderKind → String → Value → Type 0
Says ollama id item = (get "name" item ≡ some (str id)) ⊎ (get "model" item ≡ some (str id))
Says _ id item = get "id" item ≡ some (str id)

abbrev pub SaysName : ProviderKind → String → Items → Type 0
SaysName kind id nil = ⊥
SaysName kind id (cons item items) = Says kind id item ⊎ SaysName kind id items

-- every entry is named, and its name comes from an item of the list
abbrev pub AllNamed : ProviderKind → Items → List ModelEntry → Type 0
AllNamed kind items es = All (λ e. IsNamed e × SaysName kind e.id items) es

AllNamed-cons :
    (kind : ProviderKind) (item : Value) (items : Items) (es : List ModelEntry)
    → AllNamed kind items es
    → AllNamed kind (cons item items) es
AllNamed-cons kind item items [] a = tt
AllNamed-cons kind item items (e ∷ es) ((n, s), a) =
    ((n, inr s), AllNamed-cons kind item items es a)

as_str-some : (o : Option Value) (id : String) → and_then o as_str ≡ some id → o ≡ some (str id)
unfolding as_str
as_str-some none id h = cc
as_str-some (some (str s)) id h = ground arith
as_str-some (some null) id h = cc
as_str-some (some (bool b)) id h = cc
as_str-some (some (num n)) id h = cc
as_str-some (some (float t)) id h = cc
as_str-some (some (arr items)) id h = cc
as_str-some (some (obj fs)) id h = cc

listed-AllNamed :
    (kind : ProviderKind) (id_of : Value → Option String) (items : Items)
    → ((item : Value) (id : String) → id_of item ≡ some id → Says kind id item)
    → AllNamed kind items (listed kind id_of items)
unfolding listed
listed-AllNamed kind id_of nil says = tt
listed-AllNamed kind id_of (cons item items) says =
    let rest = AllNamed-cons kind item items _ (listed-AllNamed kind id_of items says) in
    elim (Option-cases (id_of item)) [
      | inl none_there ↦ rw (none_there, listed) rest
      | inr (id, there) ↦ elim (Bool-cases (is_empty id)) [
        | inl e ↦ rw (there, e, listed) rest
        | inr e ↦
            let (d, m, o, t) =
              normalized_model-Describes id item
                (unwrap_or (and_then (get "owned_by" item) as_str) (name kind)) in
            let said : Says kind id item = says item id there in
            rw (there, e, listed) (((e, d, m), inl said), rest)
      ]
    ]

ollama_id-Says : (item : Value) (id : String) → ollama_id item ≡ some id → Says ollama id item
unfolding ollama_id
ollama_id-Says item id h = elim (Option-cases (and_then (get "name" item) as_str)) [
  | inl e ↦ inr (as_str-some (get "model" item) id (rw e at h))
  | inr (n, e) ↦ inl (as_str-some (get "name" item) id (e ∙ rw e at h))
]

openai_id-says :
    (item : Value) (id : String) → openai_id item ≡ some id → get "id" item ≡ some (str id)
unfolding openai_id
openai_id-says item id h = as_str-some (get "id" item) id h

-- what a listing owes to the list of an answer: no entry without one
abbrev pub Lists : ProviderKind → Option Items → List ModelEntry → Type 0
Lists kind none es = es ≡ []
Lists kind (some items) es = AllNamed kind items es

parse_list-Lists :
    (kind : ProviderKind) (key : String) (id_of : Value → Option String) (v : Value)
    → ((item : Value) (id : String) → id_of item ≡ some id → Says kind id item)
    → Lists kind (and_then (get key v) as_array) (entries_of (parse_list kind key id_of v))
unfolding parse_list
parse_list-Lists kind key id_of v says = elim (Option-cases (get key v)) [
  | inl e ↦ rw (e, parse_list) refl
  | inr (data_of, e) ↦ elim (Option-cases (as_array data_of)) [
    | inl f ↦ rw (e, f, parse_list) refl
    | inr (items, f) ↦ rw (e, f, parse_list) (listed-AllNamed kind id_of items says)
  ]
]

-- Whatever a provider answers, parsed or not. If the answer has an array under "models" for
-- Ollama, under "data" for the others, every model of the listing has an id that is not empty and
-- that an item of the array has under "id", or under "name" or "model" for Ollama, and its object has that id and says
-- that it is a model. An answer of any other shape lists no model.
pub parse_models-Lists :
    (kind : ProviderKind) (body : Option Value)
    → Lists kind (list_in kind body) (entries_of (parse_models kind body))
unfolding parse_models parse_ollama parse_openai_list
parse_models-Lists kind none = refl
parse_models-Lists ollama (some v) = parse_list-Lists ollama "models" ollama_id v ollama_id-Says
parse_models-Lists llama_cpp (some v) = parse_list-Lists llama_cpp "data" openai_id v openai_id-says
parse_models-Lists lm_studio (some v) = parse_list-Lists lm_studio "data" openai_id v openai_id-says
parse_models-Lists deep_seek (some v) = parse_list-Lists deep_seek "data" openai_id v openai_id-says
parse_models-Lists open_router (some v) =
    parse_list-Lists open_router "data" openai_id v openai_id-says
parse_models-Lists vllm (some v) = parse_list-Lists vllm "data" openai_id v openai_id-says
