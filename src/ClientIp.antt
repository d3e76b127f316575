-- ===== src/ClientIp.antt =====
-- `client_ip` of crates/twl-server/src/ratelimit.rs. Addresses are a type with a test for the
-- trusted proxies; parsing and printing them, and `HeaderValue::to_str`, are parameters.
pub mod Spoofing
use Prim.Native.String.{String}
use token_weasel.Prelude.{
  ◌≡◌, refl, sym, ap, ◌∙◌, Bool, true, false, List, [], ◌∷◌, ◌++◌, Option, none, some,
  if◌then◌else◌, map, or_else, and_then, arith,
}
use token_weasel.Prelude.Text.{split, trim}
use token_weasel.Proxy.Headers.{HeaderValue, HeaderMap, get_header}

-- `collect` into a `Result`: one malformed piece fails it.
unfoldable pub parse_all : {Ip : Type 0} → (String → Option Ip) → List String → Option (List Ip)
parse_all parse [] = some []
parse_all parse (p ∷ ps) =
    and_then (parse (trim p)) λ ip. and_then (parse_all parse ps) λ ips. some (ip ∷ ips)

-- `rev().find`: the last that is not trusted
unfoldable pub last_untrusted : {Ip : Type 0} → (Ip → Bool) → List Ip → Option Ip
last_untrusted trusted [] = none
last_untrusted trusted (ip ∷ ips) =
    or_else (last_untrusted trusted ips) (if trusted ip then none else some ip)

module _ {Ip : Type 0} (parse : String → Option Ip) (to_string : Ip → String) (trusted : Ip → Bool)
    (to_str : HeaderValue → Option String) where
  abbrev pub header_text : String → HeaderMap → Option String
  header_text name headers = and_then (get_header name headers) to_str

  unfoldable pub forwarded_client : HeaderMap → Option Ip
  forwarded_client headers =
      and_then (header_text "x-forwarded-for" headers)
        (λ value. and_then (parse_all parse (split b',' value)) (last_untrusted trusted))

  unfoldable pub real_ip : HeaderMap → Option Ip
  real_ip headers = and_then (header_text "x-real-ip" headers) (λ v. parse (trim v))

  abbrev pub key_of : Option Ip → Ip → String
  key_of none peer = to_string peer
  key_of (some ip) peer = to_string ip

  unfoldable pub client_ip : HeaderMap → Option Ip → String
  client_ip headers none = "unknown"
  client_ip headers (some peer) =
      if trusted peer
      then key_of (or_else (forwarded_client headers) (real_ip headers)) peer
      else to_string peer
