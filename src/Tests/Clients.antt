-- ===== src/Tests/Clients.antt =====
-- Throttle keys and browser sessions at concrete inputs.
use Prim.Native.String.{String}
use token_weasel.Prelude.{
  ℕ, zero, suc, ◌+◌, ◌≡◌, refl, Bool, true, List, [], ◌∷◌, Option, none, some, if◌then◌else◌, ◌==◌,
  ite, arith, ℕ_discrete, and_then, unwrap_or,
}
use token_weasel.Prelude.Text.{◌=ₛ◌, split, trim, String-discrete}
use token_weasel.Prelude.Assoc.{lookup}
use token_weasel.Proxy.Headers.{HeaderValue, HeaderMap, get_header}
use token_weasel.ClientIp.{client_ip, parse_all, last_untrusted, forwarded_client, real_ip}
use token_weasel.ClientIp.Spoofing.{client_ip-appended, client_ip-malformed}
use token_weasel.Sessions.{Record, if_live, create, load}
use token_weasel.Sessions.Purge.{IsMap, create_fresh}

-- addresses as numbers: 0 is the proxy
abbrev parse_ip : String → Option ℕ
parse_ip s =
    if s =ₛ "proxy"
    then some 0
    else if s =ₛ "client"
    then some 1
    else if s =ₛ "spoofed"
    then some 2
    else none

abbrev show_ip : ℕ → String
show_ip zero = "proxy"
show_ip (suc n) = if n == 0 then "client" else "spoofed"

abbrev is_proxy : ℕ → Bool
is_proxy n = n == 0

abbrev chain_text : HeaderValue → Option String
chain_text [] = none
chain_text (c ∷ v) =
    if c == 0
    then some "spoofed,client, proxy"
    else if c == 1
    then some "garbage,client"
    else some "spoofed"

abbrev forwarded_headers : HeaderMap
forwarded_headers = ("x-forwarded-for", 0 ∷ []) ∷ []

abbrev garbage_headers : HeaderMap
garbage_headers = ("x-forwarded-for", 1 ∷ []) ∷ ("x-real-ip", 2 ∷ []) ∷ []

client_ip-appended_example :
    client_ip parse_ip show_ip is_proxy chain_text forwarded_headers (some 0) ≡ "client"
unfolding get_header split parse_all last_untrusted trim String-discrete
client_ip-appended_example =
    client_ip-appended parse_ip show_ip is_proxy chain_text forwarded_headers 0
      "spoofed,client, proxy" ("spoofed" ∷ []) ("client" ∷ " proxy" ∷ []) (2 ∷ []) (1 ∷ 0 ∷ []) 1
      refl refl refl refl refl refl

client_ip-malformed_example :
    client_ip parse_ip show_ip is_proxy chain_text garbage_headers (some 0)
    ≡ show_ip (
        unwrap_or
          (and_then
            (and_then (get_header "x-real-ip" garbage_headers) chain_text)
            (λ v. parse_ip (trim v)))
          0)
unfolding get_header split trim String-discrete
client_ip-malformed_example =
    client_ip-malformed parse_ip show_ip is_proxy chain_text garbage_headers 0 "garbage,client"
      "garbage" [] ("client" ∷ []) refl refl refl refl

-- the key that a client chooses by a malformed chain and an `x-real-ip` of its own
spoofed_run : client_ip parse_ip show_ip is_proxy chain_text garbage_headers (some 0) ≡ "spoofed"
unfolding client_ip forwarded_client real_ip get_header split parse_all trim String-discrete
spoofed_run = refl

abbrev session : ℕ → ℕ → Record ℕ Bool
session k t = record { id = k; data_of = true; expiry_date = t }

abbrev two_sessions : List (ℕ × Record ℕ Bool)
two_sessions = (1, session 1 5) ∷ (2, session 2 50) ∷ []

two_sessions-IsMap : IsMap ℕ_discrete two_sessions
unfolding lookup ℕ_discrete
two_sessions-IsMap = (refl, (refl, tt))

create_fresh_example :
    (r' : Record ℕ Bool) × (m' : List (ℕ × Record ℕ Bool)) × (create ℕ_discrete 9
        (λ n. n + 2)
        (session 1 70)
        two_sessions
      ≡ some (r', m'))
    × (lookup ℕ_discrete r'.id two_sessions ≡ none)
    × ((now k : ℕ)
        → load ℕ_discrete now k m'
          ≡ ite (ℕ_discrete r'.id k) (if_live now r') (load ℕ_discrete now k two_sessions))
unfolding lookup ℕ_discrete
create_fresh_example =
    create_fresh ℕ_discrete 1 9 (λ n. n + 2) (session 1 70) two_sessions refl (omega arith)
