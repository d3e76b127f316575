-- ===== src/Tests/Proxying.antt =====
-- The proxy of crates/twl-server/src/proxy: two candidates of which the first cannot be reached.
use Prim.Native.String.{String}
use token_weasel.Prelude.{
  ℕ, ◌≡◌, refl, true, [], ◌∷◌, Option, none, some, if◌then◌else◌, ite, ◌==◌, ◌++◌, arith,
}
use token_weasel.Prelude.Int.{pos}
use token_weasel.Prelude.Text.{
  ◌=ₛ◌, split, trim, is_empty, before_sep, to_ascii_lowercase, String-discrete,
}
use token_weasel.Json.{
  Value, null, bool, str, arr, obj, nil, cons, Fields, field, end, get, field_get, field_insert,
  as_str, as_array,
}
use token_weasel.Provider.Models.{
  ollama, parsed, parse_models, parse_ollama, parse_list, listed, ollama_id, normalized_model,
  detect_model_kind, preserve, with_context, name,
}
use token_weasel.Provider.Models.Normal.{Lists, list_in, entries_of, parse_models-Lists}
use token_weasel.Backends.Registry.{routed}
use token_weasel.Proxy.{
  ClientKeyResult, valid, Attempt, connect_failure, completed, proxy_handler, failover, serve,
  reply_of, attempt, forwarded, admit, begin_load, begin_meter, connect, exchange, drop_meter,
  drop_load,
}
use token_weasel.Proxy.Guards.{IsBalanced, proxy_handler-IsBalanced}
use token_weasel.Proxy.Failover.{reached, Settles, failover-Settles}
use token_weasel.Proxy.Headers.{
  HeaderValue, HeaderMap, bytes, identity_value, forward_request_headers, forward_response_headers,
  active_html, active_safeguards, get_header, skip_headers, retain_headers, connection_header_names,
  tokens,
}
use token_weasel.Proxy.Headers.Trust.{
  values_of, withheld_request, withheld_response, is_active_content, safeguard_lines,
  forward_request_headers-withheld, forward_response_headers-withheld,
}
use token_weasel.Proxy.Body.{inject_include_usage}
use token_weasel.Proxy.Body.Inject.{get_option, inject_include_usage-get}

abbrev first_down : ℕ → Attempt
first_down i = if i == 0 then connect_failure else completed 200

abbrev key_seven : ClientKeyResult
key_seven = valid (record { key_id = pos 7; user_id = pos 2 })

handler_run : proxy_handler true key_seven true (routed (0 ∷ 1 ∷ [])) first_down ≡ (
  admit (some (pos 2))
      ∷ begin_load 0
      ∷ begin_meter 0
      ∷ connect 0
      ∷ drop_meter 0
      ∷ drop_load 0
      ∷ begin_load 1
      ∷ begin_meter 1
      ∷ connect 1
      ∷ exchange 1
      ∷ [],
  some (forwarded 200 1 (some (pos 7))),
)
unfolding proxy_handler serve reply_of failover attempt
handler_run = refl

proxy_handler-IsBalanced_example :
    IsBalanced 1 (proxy_handler true key_seven true (routed (0 ∷ 1 ∷ [])) first_down)
proxy_handler-IsBalanced_example =
    proxy_handler-IsBalanced true key_seven true (routed (0 ∷ 1 ∷ [])) first_down 1

failover-Settles_example :
    Settles first_down (reached first_down (0 ∷ 1 ∷ [])) (failover first_down (0 ∷ 1 ∷ []))
failover-Settles_example = failover-Settles first_down (0 ∷ 1 ∷ []) (omega arith)

-- `to_str` of a value that reads as the name of a header, or as a page
abbrev text_of : HeaderValue → Option String
text_of [] = none
text_of (c ∷ v) = if c == 0 then some "X-Hop" else some "text/html; charset=utf-8"

abbrev hop_headers : HeaderMap
hop_headers =
    ("connection", 0 ∷ []) ∷ ("x-hop", 9 ∷ []) ∷ ("cookie", 8 ∷ []) ∷ ("accept", 7 ∷ []) ∷ []

request_headers_run :
    forward_request_headers text_of hop_headers true
    ≡ ("accept", 7 ∷ []) ∷ ("accept-encoding", identity_value) ∷ []
unfolding forward_request_headers skip_headers retain_headers connection_header_names tokens split
    trim is_empty to_ascii_lowercase String-discrete
request_headers_run = refl

forward_request_headers-withheld_example :
    values_of "x-hop" (forward_request_headers text_of hop_headers true)
    ≡ (if withheld_request text_of hop_headers true "x-hop"
        then []
        else values_of "x-hop" hop_headers)
      ++ ite (String-discrete "accept-encoding" "x-hop") (bytes "identity" ∷ []) []
forward_request_headers-withheld_example =
    forward_request_headers-withheld text_of hop_headers true "x-hop"

abbrev page_headers : HeaderMap
page_headers = ("content-type", 1 ∷ []) ∷ ("set-cookie", 8 ∷ []) ∷ []

forward_response_headers-withheld_example :
    values_of "set-cookie" (forward_response_headers text_of page_headers)
    ≡ (if withheld_response text_of page_headers
          (is_active_content text_of page_headers)
          "set-cookie"
        then []
        else values_of "set-cookie" page_headers)
      ++ (if is_active_content text_of page_headers
          then values_of "set-cookie" safeguard_lines
          else [])
forward_response_headers-withheld_example =
    forward_response_headers-withheld text_of page_headers "set-cookie"

page_run :
    values_of "content-disposition" (forward_response_headers text_of page_headers)
    ≡ bytes "attachment" ∷ []
unfolding forward_response_headers skip_headers active_html get_header active_safeguards
    retain_headers connection_header_names before_sep trim to_ascii_lowercase String-discrete
page_run = refl

abbrev stream_fields : Fields
stream_fields = field "stream" (bool true) (field "stream_options" null end)

inject_include_usage-get_example :
    let v = inject_include_usage (obj stream_fields) in
    (get "stream" v ≡ (
      if "stream_options" =ₛ "stream"
      then get "stream_options" v
      else get "stream" (obj stream_fields)))
    × (get_option "include_usage" (get "stream_options" v) ≡ (
        if "include_usage" =ₛ "include_usage"
        then some (bool true)
        else get_option "include_usage" (get "stream_options" (obj stream_fields))))
inject_include_usage-get_example = inject_include_usage-get stream_fields "stream" "include_usage"

abbrev ollama_body : Value
ollama_body =
    obj (field "models" (arr (cons (obj (field "name" (str "llama3") end)) (cons null nil))) end)

ollama_listing :
    parse_models ollama (some ollama_body)
    ≡ parsed (
        record {
          id = "llama3";
          raw = obj (
              field "id"
                (str "llama3")
                (field "object" (str "model") (field "owned_by" (str "ollama") end)));
        }
        ∷ [])
unfolding parse_models parse_ollama parse_list listed ollama_id get field_get as_str as_array
    is_empty normalized_model detect_model_kind preserve with_context field_insert name
ollama_listing = refl

parse_models-Lists_example :
    Lists ollama
      (list_in ollama (some ollama_body))
      (entries_of (parse_models ollama (some ollama_body)))
parse_models-Lists_example = parse_models-Lists ollama (some ollama_body)
