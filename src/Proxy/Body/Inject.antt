-- ===== src/Proxy/Body/Inject.antt =====
-- What the rewriting of a request body changes.
use Prim.Native.String.{String}
use token_weasel.Prelude.{
  ◌≡◌, sym, ap, ◌∙◌, true, Option, none, some, if◌then◌else◌, unwrap_or, and_then,
}
use token_weasel.Prelude.Text.{◌=ₛ◌}
use token_weasel.Json.Insert.{field_get-insert}
use token_weasel.Json.{
  Value, null, bool, num, float, str, arr, obj, Fields, end, field_get, field_insert, get,
}
use token_weasel.Proxy.Body.{inject_include_usage, set_usage}

abbrev pub get_option : String → Option Value → Option Value
get_option k o = and_then o (get k)

get-set_usage :
    (o : Option Value) (i : String)
    → get i (set_usage (unwrap_or o null))
      ≡ (if "include_usage" =ₛ i then some (bool true) else get_option i o)
unfolding get
get-set_usage none i = field_get-insert "include_usage" i (bool true) end
get-set_usage (some (obj opts)) i = field_get-insert "include_usage" i (bool true) opts
get-set_usage (some null) i = field_get-insert "include_usage" i (bool true) end
get-set_usage (some (bool b)) i = field_get-insert "include_usage" i (bool true) end
get-set_usage (some (num z)) i = field_get-insert "include_usage" i (bool true) end
get-set_usage (some (float t)) i = field_get-insert "include_usage" i (bool true) end
get-set_usage (some (str t)) i = field_get-insert "include_usage" i (bool true) end
get-set_usage (some (arr xs)) i = field_get-insert "include_usage" i (bool true) end

-- Of a request body that is an object, the rewriting changes nothing but `stream_options`; there
-- it sets `include_usage`, and leaves every other option that was there.
pub inject_include_usage-get :
    (fs : Fields) (k i : String)
    → let v = inject_include_usage (obj fs) in
      (get k v ≡ (if "stream_options" =ₛ k then get "stream_options" v else get k (obj fs)))
      × (get_option i (get "stream_options" v) ≡ (
          if "include_usage" =ₛ i
          then some (bool true)
          else get_option i (get "stream_options" (obj fs))))
unfolding inject_include_usage get
inject_include_usage-get fs k i =
    let x = set_usage (unwrap_or (field_get "stream_options" fs) null) in
    let found : field_get "stream_options" (field_insert "stream_options" x fs) ≡ some x =
      field_get-insert "stream_options" "stream_options" x fs in
    (
      field_get-insert "stream_options" k x fs
          ∙ ap (λ o. if "stream_options" =ₛ k then o else field_get k fs) (sym found),
      ap (get_option i) found ∙ get-set_usage (field_get "stream_options" fs) i,
    )
