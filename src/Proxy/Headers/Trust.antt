-- ===== src/Proxy/Headers/Trust.antt =====
-- What never crosses the proxy of crates/twl-server/src/proxy/headers.rs, and what always does,
-- by name and with the values. The names are written out here a second time, from what the
-- comments of the source and RFC 7230 ask for.
use Prim.Native.String.{String}
use token_weasel.Prelude.{
  ◌≡◌, refl, sym, ap, ◌∙◌, Bool, true, false, not, ◌||◌, ◌&&◌, List, [], ◌∷◌, ◌++◌, Option, none,
  some, if◌then◌else◌, ite, arith, and_then, Option-cases, inl, inr,
}
use mathlib.Core.List.{append-nil}
use token_weasel.Prelude.Text.{
  String-discrete, to_ascii_lowercase, is_empty, trim, split, before_sep, ◌=ₛ◌,
}
use token_weasel.Backends.Catalog.{is_in}
use token_weasel.Proxy.Headers.{
  HeaderValue, HeaderMap, bytes, skip_request_headers, client_auth_headers, skip_response_headers,
  active_html_headers, tokens, connection_header_names, is_skipped, retain_headers, skip_headers,
  forward_request_headers, get_header, active_html, forward_response_headers, active_safeguards,
}

-- the values that stand under a name, in their order
abbrev pub values_of : String → HeaderMap → List HeaderValue
values_of k [] = []
values_of k ((n, v) ∷ hs) = ite (String-discrete n k) (v ∷ values_of k hs) (values_of k hs)

-- the headers of one connection, in both directions
abbrev is_hop_by_hop : String → Bool
is_hop_by_hop k = is_in k (
    "connection" ∷ "keep-alive" ∷ "proxy-authenticate" ∷ "proxy-authorization" ∷ "te" ∷ "trailer"
    ∷ "transfer-encoding" ∷ "upgrade" ∷ [])

-- a `Connection` line that has the name as one of its pieces
abbrev is_piece : String → List String → Bool
is_piece k [] = false
is_piece k (p ∷ ps) =
    (not (is_empty (trim p)) && ite (String-discrete (to_ascii_lowercase (trim p)) k) true false)
    || is_piece k ps

abbrev is_listed : String → Option String → Bool
is_listed k none = false
is_listed k (some s) = is_piece k (split b',' s)

-- the first value under a name
abbrev first : List HeaderValue → Option HeaderValue
first [] = none
first (v ∷ vs) = some v

abbrev runs_scripts : Option String → Bool
runs_scripts none = false
runs_scripts (some s) =
    let mime = to_ascii_lowercase (trim (before_sep b';' s)) in
    mime =ₛ "text/html" || mime =ₛ "application/xhtml+xml" || mime =ₛ "image/svg+xml"

-- the lines of the proxy's own for content that a browser would run
abbrev pub safeguard_lines : HeaderMap
safeguard_lines =
    (
      "content-security-policy",
      bytes "sandbox; default-src 'none'; base-uri 'none'; form-action 'none'",
    )
    ∷ ("x-content-type-options", bytes "nosniff")
    ∷ ("content-disposition", bytes "attachment")
    ∷ []

values_of-append :
    (k : String) (hs tail : HeaderMap)
    → values_of k (hs ++ tail) ≡ values_of k hs ++ values_of k tail
values_of-append k [] tail = refl
values_of-append k ((n, v) ∷ hs) tail = ground (arith, values_of-append k hs tail)

get_header-values_of : (k : String) (hs : HeaderMap) → get_header k hs ≡ first (values_of k hs)
unfolding get_header
get_header-values_of k [] = refl
get_header-values_of k ((n, v) ∷ hs) = ground (arith, get_header-values_of k hs)

is_in-append : (k : String) (ns ms : List String) → is_in k (ns ++ ms) ≡ (is_in k ns || is_in k ms)
is_in-append k [] ms = refl
is_in-append k (n ∷ ns) ms = ground (arith, is_in-append k ns ms)

is_in-tokens : (k : String) (ps : List String) → is_in k (tokens ps) ≡ is_piece k ps
unfolding tokens
is_in-tokens k [] = refl
is_in-tokens k (p ∷ ps) = ground (arith, is_in-tokens k ps)

module _ (to_str : HeaderValue → Option String) where
  -- whether a `Connection` line names the header
  abbrev pub is_connection_named : String → HeaderMap → Bool
  is_connection_named k [] = false
  is_connection_named k ((n, v) ∷ hs) =
      (ite (String-discrete n "connection") true false && is_listed k (to_str v))
      || is_connection_named k hs

  is_in-connection_header_names :
      (k : String) (hs : HeaderMap)
      → is_in k (connection_header_names to_str hs) ≡ is_connection_named k hs
  unfolding connection_header_names
  is_in-connection_header_names k [] = refl
  is_in-connection_header_names k ((n, v) ∷ hs) = elim (Option-cases (to_str v)) [
    | inl e ↦ rw e (ground (arith, is_in-connection_header_names k hs))
    | inr (s, e) ↦ rw e (
        ground (
          arith,
          is_in-append k (tokens (split b',' s)) (connection_header_names to_str hs),
          is_in-tokens k (split b',' s),
          is_in-connection_header_names k hs,
        ))
  ]

  values_of-retain_headers :
      (list dynamic extra : List String) (k : String) (hs : HeaderMap)
      → values_of k (retain_headers to_str list dynamic extra hs)
        ≡ (if is_skipped to_str list dynamic extra k then [] else values_of k hs)
  unfolding retain_headers
  values_of-retain_headers list dynamic extra k [] = ground arith
  values_of-retain_headers list dynamic extra k ((n, v) ∷ hs) =
      ground (arith, values_of-retain_headers list dynamic extra k hs)

  -- the request headers that stay behind
  abbrev pub withheld_request : HeaderMap → Bool → String → Bool
  withheld_request headers strip k =
      is_hop_by_hop k
      || is_in k ("host" ∷ "content-length" ∷ "accept-encoding" ∷ "cookie" ∷ [])
      || is_connection_named (to_ascii_lowercase k) headers
      || (strip && is_in k ("authorization" ∷ "x-api-key" ∷ []))

  skipped_request :
      (headers : HeaderMap) (strip : Bool) (k : String)
      → is_skipped to_str skip_request_headers
          (connection_header_names to_str headers)
          (if strip then client_auth_headers else [])
          k
        ≡ withheld_request headers strip k
  skipped_request headers true k =
      rw (is_in-connection_header_names (to_ascii_lowercase k) headers) (ground arith)
  skipped_request headers false k =
      rw (is_in-connection_header_names (to_ascii_lowercase k) headers) (ground arith)

  -- Under each name the upstream gets the client's values, all of them and in their order, or none
  -- of them: none of a hop-by-hop header, of `host`, `content-length` and `cookie`, of a header that
  -- a `Connection` line names, and, if the credentials were consumed, of `authorization` and
  -- `x-api-key`. Under `accept-encoding` it gets the one value `identity`.
  pub forward_request_headers-withheld :
      (headers : HeaderMap) (strip : Bool) (k : String)
      → values_of k (forward_request_headers to_str headers strip)
        ≡ (if withheld_request headers strip k then [] else values_of k headers)
          ++ ite (String-discrete "accept-encoding" k) (bytes "identity" ∷ []) []
  unfolding forward_request_headers skip_headers bytes
  forward_request_headers-withheld headers strip k =
      let extra = if strip then client_auth_headers else [] in
      let dynamic = connection_header_names to_str headers in
      values_of-append k (retain_headers to_str skip_request_headers dynamic extra headers) _
      ∙ ap (λ vs. vs ++ ite (String-discrete "accept-encoding" k) (bytes "identity" ∷ []) [])
          (values_of-retain_headers skip_request_headers dynamic extra k headers
            ∙ rw (skipped_request headers strip k) refl)

  -- whether the content is a page, XHTML or an SVG image, by its first `content-type`
  abbrev pub is_active_content : HeaderMap → Bool
  is_active_content headers =
      runs_scripts (and_then (first (values_of "content-type" headers)) to_str)

  -- the response headers that stay behind
  abbrev pub withheld_response : HeaderMap → Bool → String → Bool
  withheld_response headers active k =
      is_hop_by_hop k
      || is_in k ("set-cookie" ∷ "content-length" ∷ [])
      || is_connection_named (to_ascii_lowercase k) headers
      || (active
          && is_in k (
              "content-disposition" ∷ "content-security-policy"
              ∷ "content-security-policy-report-only" ∷ "x-content-type-options" ∷ []))

  active_html-content :
      (headers : HeaderMap) → active_html to_str headers ≡ is_active_content headers
  unfolding active_html
  active_html-content headers = rw (get_header-values_of "content-type" headers) refl

  skipped_response :
      (headers : HeaderMap) (active : Bool) (k : String)
      → is_skipped to_str skip_response_headers
          (connection_header_names to_str headers)
          (if active then active_html_headers else [])
          k
        ≡ withheld_response headers active k
  skipped_response headers true k =
      rw (is_in-connection_header_names (to_ascii_lowercase k) headers) (ground arith)
  skipped_response headers false k =
      rw (is_in-connection_header_names (to_ascii_lowercase k) headers) (ground arith)

  values_of-kept :
      (headers : HeaderMap) (active : Bool) (k : String)
      → values_of k (skip_headers to_str false headers (if active then active_html_headers else []))
        ≡ (if withheld_response headers active k then [] else values_of k headers)
  unfolding skip_headers
  values_of-kept headers active k =
      let dynamic = connection_header_names to_str headers in
      let extra = if active then active_html_headers else [] in
      values_of-retain_headers skip_response_headers dynamic extra k headers
      ∙ rw (skipped_response headers active k) refl

  values_of-response :
      (headers : HeaderMap) (active : Bool) (k : String)
      → values_of k (
          if active
          then skip_headers to_str false headers active_html_headers ++ active_safeguards
          else skip_headers to_str false headers [])
        ≡ (if withheld_response headers active k then [] else values_of k headers)
          ++ (if active then values_of k safeguard_lines else [])
  unfolding active_safeguards
  values_of-response headers true k =
      values_of-append k (skip_headers to_str false headers active_html_headers) safeguard_lines
      ∙ ap (λ vs. vs ++ values_of k safeguard_lines) (values_of-kept headers true k)
  values_of-response headers false k = values_of-kept headers false k ∙ sym (append-nil _)

  -- Under each name the client gets the upstream's values, all of them and in their order, or none
  -- of them: none of a hop-by-hop header, of `set-cookie` and `content-length`, and of a header that
  -- a `Connection` line names. Where the content is a page, XHTML or an SVG image, none of the
  -- upstream's policy headers either, and the client gets the proxy's own three lines: a sandbox
  -- policy, `nosniff` and `attachment`.
  pub forward_response_headers-withheld :
      (headers : HeaderMap) (k : String)
      → values_of k (forward_response_headers to_str headers)
        ≡ (if withheld_response headers (is_active_content headers) k
            then []
            else values_of k headers)
          ++ (if is_active_content headers then values_of k safeguard_lines else [])
  unfolding forward_response_headers
  forward_response_headers-withheld headers k =
      rw (active_html-content headers) (values_of-response headers (is_active_content headers) k)
