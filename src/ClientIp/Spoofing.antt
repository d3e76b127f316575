-- ===== src/ClientIp/Spoofing.antt =====
-- What a client can and cannot do to its throttle key by the headers that it sends.
use Prim.Native.String.{String}
use token_weasel.Prelude.{
  ◌≡◌, refl, Bool, true, List, [], ◌∷◌, ◌++◌, Option, none, some, or_else, and_then, unwrap_or,
  Option-cases, inl, inr,
}
use token_weasel.Prelude.Text.{split, trim}
use token_weasel.Proxy.Headers.{HeaderValue, HeaderMap, get_header}
use token_weasel.ClientIp.{parse_all, last_untrusted, forwarded_client, real_ip, key_of, client_ip}

prepend-append :
    {Ip : Type 0} (ip : Ip) (o p : Option (List Ip))
    → and_then (and_then o (λ a. and_then p (λ b. some (a ++ b)))) (λ ips. some (ip ∷ ips))
      ≡ and_then (and_then o (λ ips. some (ip ∷ ips))) (λ a. and_then p (λ b. some (a ++ b)))
prepend-append ip none p = refl
prepend-append ip (some a) none = refl
prepend-append ip (some a) (some b) = refl

append_nothing : {Ip : Type 0} (o : Option (List Ip)) → o ≡ and_then o (λ b. some b)
append_nothing none = refl
append_nothing (some b) = refl

or_else_assoc : {A : Type 0} (o p q : Option A) → or_else (or_else o p) q ≡ or_else o (or_else p q)
or_else_assoc none p q = refl
or_else_assoc (some a) p q = refl

or_else-none : {A : Type 0} (o : Option A) → o ≡ or_else o none
or_else-none none = refl
or_else-none (some a) = refl

-- A header value that ends in the pieces `ys`: the pieces before them matter only by being
-- addresses, or not.
parse_all-append :
    {Ip : Type 0} (parse : String → Option Ip) (xs ys : List String)
    → parse_all parse (xs ++ ys)
      ≡ and_then (parse_all parse xs) (λ a. and_then (parse_all parse ys) (λ b. some (a ++ b)))
unfolding parse_all
parse_all-append parse [] ys = append_nothing (parse_all parse ys)
parse_all-append parse (x ∷ xs) ys = elim (Option-cases (parse (trim x))) [
  | inl e ↦ rw e refl
  | inr (ip, e) ↦
      rw (e, parse_all-append parse xs ys)
        (prepend-append ip (parse_all parse xs) (parse_all parse ys))
]

parse_all-malformed :
    {Ip : Type 0} (parse : String → Option Ip) (before : List String) (piece : String)
    → (after : List String) → parse (trim piece) ≡ none
    → parse_all parse (before ++ piece ∷ after) ≡ none
unfolding parse_all
parse_all-malformed parse [] piece after h = rw h refl
parse_all-malformed parse (x ∷ before) piece after h = elim (Option-cases (parse (trim x))) [
  | inl e ↦ rw e refl
  | inr (ip, e) ↦ rw (e, parse_all-malformed parse before piece after h) refl
]

last_untrusted-append :
    {Ip : Type 0} (trusted : Ip → Bool) (a b : List Ip)
    → last_untrusted trusted (a ++ b)
      ≡ or_else (last_untrusted trusted b) (last_untrusted trusted a)
unfolding last_untrusted
last_untrusted-append trusted [] b = or_else-none (last_untrusted trusted b)
last_untrusted-append trusted (x ∷ a) b =
    rw (last_untrusted-append trusted a b)
      (or_else_assoc (last_untrusted trusted b) (last_untrusted trusted a) _)

module _ {Ip : Type 0} (parse : String → Option Ip) (to_string : Ip → String) (trusted : Ip → Bool)
    (to_str : HeaderValue → Option String) where
  -- Behind a trusted peer, and where the whole chain of addresses is well formed, the key is the
  -- last address that is not trusted: what the client sent in front of the addresses that the
  -- proxies appended makes no difference.
  pub client_ip-appended :
      (headers : HeaderMap) (peer : Ip) (value : String) (xs ys : List String) (a b : List Ip)
      → (c : Ip) → trusted peer ≡ true
      → and_then (get_header "x-forwarded-for" headers) to_str ≡ some value
      → split b',' value ≡ xs ++ ys
      → parse_all parse xs ≡ some a
      → parse_all parse ys ≡ some b
      → last_untrusted trusted b ≡ some c
      → client_ip parse to_string trusted to_str headers (some peer) ≡ to_string c
  unfolding client_ip forwarded_client
  client_ip-appended headers peer value xs ys a b c t h s p q r =
      rw (t, h, s, parse_all-append parse xs ys, p, q, last_untrusted-append trusted a b, r) refl

  -- Behind a trusted peer, one piece of the chain that is no address, wherever it stands, makes the
  -- key independent of all the others, those that the proxies appended included: the key is the
  -- address that the first `x-real-ip` line holds, trusted or not, or the peer's if it holds none.
  pub client_ip-malformed :
      (headers : HeaderMap) (peer : Ip) (value piece : String) (before after : List String)
      → trusted peer ≡ true
      → and_then (get_header "x-forwarded-for" headers) to_str ≡ some value
      → split b',' value ≡ before ++ piece ∷ after
      → parse (trim piece) ≡ none
      → client_ip parse to_string trusted to_str headers (some peer)
        ≡ to_string (
            unwrap_or
              (and_then (and_then (get_header "x-real-ip" headers) to_str) (λ v. parse (trim v)))
              peer)
  unfolding client_ip forwarded_client real_ip
  client_ip-malformed headers peer value piece before after t h s p =
      rw (t, h, s, parse_all-malformed parse before piece after p)
        (key_of-unwrap_or
          (and_then (and_then (get_header "x-real-ip" headers) to_str) (λ v. parse (trim v))))
    where
      key_of-unwrap_or :
          (o : Option Ip)
          → key_of parse to_string trusted to_str o peer ≡ to_string (unwrap_or o peer)
      key_of-unwrap_or none = refl
      key_of-unwrap_or (some ip) = refl
