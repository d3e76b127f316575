-- ===== src/Proxy/Body.antt =====
-- crates/twl-server/src/proxy/body.rs. Parsing and printing JSON are parameters, and so are the
-- hash of a prefix (`FxHasher` of a byte slice) and the UTF-8 bytes of a string.
pub mod Inject
use Prim.Native.String
use Prim.Native.String.{String}
use token_weasel.Prelude.{
  ℕ, Bool, true, false, not, ◌&&◌, ◌||◌, List, [], ◌∷◌, ◌++◌, Option, none, some, if◌then◌else◌,
  and_then, unwrap_or, zero, suc, is_none,
}
use token_weasel.Prelude.Text.{◌=ₛ◌, contains, ends_with}
use token_weasel.Json.{
  Value, null, bool, num, float, str, arr, obj, Items, nil, cons, Fields, end, field_get,
  field_insert, get, as_str, as_bool, as_array,
}

abbrev pub Bytes : Type 0
Bytes = List ℕ

abbrev max_prefix_bytes : ℕ
max_prefix_bytes = 8192

-- `buf[..buf.len().min(n)]`
unfoldable pub take_bytes : ℕ → Bytes → Bytes
take_bytes zero bs = []
take_bytes (suc n) [] = []
take_bytes (suc n) (b ∷ bs) = b ∷ take_bytes n bs

abbrev has_role : String → Value → Bool
has_role role m = is_role (and_then (get "role" m) as_str)
  where
    is_role : Option String → Bool
    is_role none = false
    is_role (some r) = r =ₛ role

-- `find` by role
unfoldable pub find_message : String → Items → Option Value
find_message role nil = none
find_message role (cons m ms) = if has_role role m then some m else find_message role ms

-- the string content of the first message of a role
unfoldable pub content_of : String → Items → Option String
content_of role msgs = and_then (and_then (find_message role msgs) (get "content")) as_str

abbrev set_usage : Value → Value
set_usage (obj opts) = obj (field_insert "include_usage" (bool true) opts)
set_usage v = obj (field_insert "include_usage" (bool true) end)

-- `stream_options`, created or made an object, with `include_usage`
unfoldable pub inject_include_usage : Value → Value
inject_include_usage (obj fs) =
    obj (
      field_insert "stream_options" (set_usage (unwrap_or (field_get "stream_options" fs) null)) fs)
inject_include_usage v = v

unfoldable pub trackable : String → Bool
trackable endpoint = contains endpoint "chat/completions" || ends_with endpoint "/completions"

abbrev no_bytes : Bytes → Bool
no_bytes [] = true
no_bytes (b ∷ bs) = false

module _ (as_bytes : String → Bytes) (hash : Bytes → ℕ) where
  abbrev bytes_or_nil : Option String → Bytes
  bytes_or_nil none = []
  bytes_or_nil (some s) = as_bytes s

  -- the chat messages: system content, the separator, user content
  unfoldable pub chat_prefix : Items → Option Bytes
  chat_prefix msgs =
      let system = content_of "system" msgs in
      let user = content_of "user" msgs in
      if is_none system && is_none user
      then none
      else some (bytes_or_nil system ++ 255 ∷ bytes_or_nil user)

  unfoldable pub prefix_bytes : String → Value → Option Bytes
  prefix_bytes endpoint v =
      if contains endpoint "chat/completions"
      then and_then (and_then (get "messages" v) as_array) chat_prefix
      else if ends_with endpoint "/completions"
      then and_then (and_then (get "prompt" v) as_str) (λ s. some (as_bytes s))
      else none

  unfoldable pub compute_prefix_hash : String → Value → Option ℕ
  compute_prefix_hash endpoint v =
      and_then (prefix_bytes endpoint v) (λ b. some (hash (take_bytes max_prefix_bytes b)))

  module _ (from_slice : Bytes → Option Value) (to_vec : Value → Option Bytes) where
    unfoldable pub is_stream : Value → Bool
    is_stream v = unwrap_or (and_then (get "stream" v) as_bool) false

    unfoldable pub out_body : String → Bytes → Value → Bytes
    out_body endpoint body v =
        if is_stream v && trackable endpoint
        then unwrap_or (to_vec (inject_include_usage v)) body
        else body

    unfoldable pub prepare_body : String → Bytes → Bytes × Option String × Option ℕ
    prepare_body endpoint body =
        if no_bytes body then (body, none, none) else elim (from_slice body) [
          | none ↦ (body, none, none)
          | some v ↦ (
            out_body endpoint body v,
            and_then (get "model" v) as_str,
            compute_prefix_hash endpoint v,
          )
        ]
