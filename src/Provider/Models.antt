-- ===== src/Provider/Models.antt =====
-- The model listings of crates/twl-provider/src/lib.rs. Parsing JSON is a parameter.
pub mod Normal
use Prim.Native.Char.{code}
use Prim.Native.String.{String}
use token_weasel.Prelude.{
  ℕ, Bool, true, false, ◌||◌, List, [], ◌∷◌, ◌++◌, Option, none, some, if◌then◌else◌, and_then,
  or_else, unwrap_or, is_none, is_some, ◌==◌,
}
use token_weasel.Prelude.Text.{◌=ₛ◌, is_empty, strip_prefix}
use token_weasel.Json.{
  Value, null, bool, num, float, str, arr, obj, Items, nil, cons, Fields, end, field_get,
  field_insert, get, as_str, as_array, is_null,
}

pub data ProviderKind : Type 0 where
  llama_cpp ollama lm_studio deep_seek open_router vllm : ProviderKind

pub data ModelKind : Type 0 where
  embedding_kind : ModelKind

pub record ModelEntry : Type 0 where
  pub id : String
  pub raw : Value

pub data Listing : Type 0 where
  parsed : List ModelEntry → Listing
  parse_error : Listing
  missing_field wrong_type : String → Listing

unfoldable pub kind_name : ModelKind → String
kind_name embedding_kind = "embedding"

unfoldable pub name : ProviderKind → String
name llama_cpp = "llamacpp"
name ollama = "ollama"
name lm_studio = "lmstudio"
name deep_seek = "deepseek"
name open_router = "openrouter"
name vllm = "vllm"

-- The `Bearer ` prefix is put in front by `bearer`.
unfoldable pub auth_headers : (String → String) → Option String → List (String × String)
auth_headers bearer none = []
auth_headers bearer (some key) = if is_empty key then [] else ("authorization", bearer key) ∷ []

unfoldable pub models_endpoint : ProviderKind → String
models_endpoint ollama = "/api/tags"
models_endpoint deep_seek = "/models"
models_endpoint llama_cpp = "/v1/models"
models_endpoint lm_studio = "/v1/models"
models_endpoint open_router = "/v1/models"
models_endpoint vllm = "/v1/models"

unfoldable pub kind_from_str : String → Option ModelKind
kind_from_str s = if s =ₛ "embedding" || s =ₛ "embeddings" then some embedding_kind else none

-- what stands behind the last "->", if there is one
unfoldable pub last_arrow : String → Option String
last_arrow String.[] = none
last_arrow (String.◌∷◌ c s) =
    or_else (last_arrow s) (if code c == 45 then strip_prefix ">" s else none)

-- `rsplit("->").next()`
unfoldable pub modality_tail : String → String
modality_tail m = unwrap_or (last_arrow m) m

-- the first item of an array that names a kind, by `read`
unfoldable pub kind_in : (String → String) → Items → Option ModelKind
kind_in read nil = none
kind_in read (cons v vs) =
    or_else (and_then (as_str v) (λ s. kind_from_str (read s))) (kind_in read vs)

unfoldable pub kind_of_modalities : Value → Option ModelKind
kind_of_modalities (arr ms) = kind_in modality_tail ms
kind_of_modalities (str s) = kind_from_str (modality_tail s)
kind_of_modalities _ = none

unfoldable pub detect_model_kind : Value → Option ModelKind
detect_model_kind source = or_else (and_then (and_then (get "type" source) as_str) kind_from_str) (
    or_else (and_then (and_then (get "capabilities" source) as_array) (kind_in (λ s. s))) (
      and_then (get "architecture" source)
        λ a. and_then (or_else (get "output_modalities" a) (get "modality" a)) kind_of_modalities))

abbrev pub preserved_fields : List String
preserved_fields = "aliases" ∷ "context_length" ∷ "created" ∷ "knowledge_cutoff" ∷ "reasoning" ∷ []

-- `filter(|v| !v.is_null())`
abbrev pub not_null : Option Value → Option Value
not_null o = and_then o (λ v. if is_null v then none else some v)

-- an insertion of a value that may be missing
abbrev pub insert_some : String → Option Value → Fields → Fields
insert_some k none fs = fs
insert_some k (some v) fs = field_insert k v fs

unfoldable pub preserve : Value → List String → Fields → Fields
preserve source [] fs = fs
preserve source (k ∷ ks) fs = preserve source ks (insert_some k (not_null (get k source)) fs)

unfoldable pub with_context : Value → Fields → Fields
with_context source fs =
    if is_some (field_get "context_length" fs)
    then fs
    else insert_some "context_length" (not_null (and_then (get "meta" source) (get "n_ctx"))) fs

abbrev pub type_of : Option ModelKind → Option Value
type_of none = none
type_of (some k) = some (str (kind_name k))

abbrev pub base_fields : String → String → Fields
base_fields id owned_by =
    field_insert "owned_by" (str owned_by)
      (field_insert "object" (str "model") (field_insert "id" (str id) end))

unfoldable pub normalized_model : String → Value → String → Value
normalized_model id source owned_by = obj (
    insert_some "type" (type_of (detect_model_kind source))
      (with_context source (preserve source preserved_fields (base_fields id owned_by))))

abbrev entry_of : ProviderKind → Value → String → ModelEntry
entry_of kind item id = record {
  id = id;
  raw = normalized_model id item (unwrap_or (and_then (get "owned_by" item) as_str) (name kind));
}

-- the loop over the items: an item with no usable id is skipped
unfoldable pub listed : ProviderKind → (Value → Option String) → Items → List ModelEntry
listed kind id_of nil = []
listed kind id_of (cons item items) =
    let rest = listed kind id_of items in
    elim (id_of item) [
      | none ↦ rest
      | some id ↦ if is_empty id then rest else entry_of kind item id ∷ rest
    ]

unfoldable pub openai_id : Value → Option String
openai_id item = and_then (get "id" item) as_str

unfoldable pub ollama_id : Value → Option String
ollama_id item = or_else (and_then (get "name" item) as_str) (and_then (get "model" item) as_str)

unfoldable pub parse_list : ProviderKind → String → (Value → Option String) → Value → Listing
parse_list kind key id_of value = elim (get key value) [
  | none ↦ missing_field key
  | some data_of ↦ elim (as_array data_of) [
    | none ↦ wrong_type key
    | some items ↦ parsed (listed kind id_of items)
  ]
]

unfoldable pub parse_openai_list : ProviderKind → Value → Listing
parse_openai_list kind = parse_list kind "data" openai_id

unfoldable pub parse_ollama : ProviderKind → Value → Listing
parse_ollama kind = parse_list kind "models" ollama_id

-- the argument is the body, parsed or not
unfoldable pub parse_models : ProviderKind → Option Value → Listing
parse_models kind none = parse_error
parse_models ollama (some v) = parse_ollama ollama v
parse_models kind (some v) = parse_openai_list kind v
