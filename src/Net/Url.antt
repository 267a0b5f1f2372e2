-- ===== src/Net/Url.antt =====
-- base/net/stratum/Url.{h,cpp}: addresses of pools, as they stand in a configuration (built with
-- RXS_FEATURE_HTTP).
mod Strtol
pub mod RoundTrip
mod Tests
use rxs_supported.Common.{
  ℕ, zero, suc, ◌+◌, ◌-◌, ◌*◌, ◌/◌, ◌%◌, ◌^◌, List, [], ◌∷◌, ◌++◌, Bool, true, false, not, ◌&&◌,
  ◌||◌, ltb, leb, ◌==◌, if◌then◌else◌, Option, none, some, length, drop, take,
}
use rxs_supported.Common.Decimal.{decimal}
use rxs_supported.Net.Job.{Text, text_eq}
use rxs_supported.Net.Url.Strtol.{strtol}

pub data Scheme : Type 0 where
  unspecified stratum daemon socks5 : Scheme

pub record Url : Type 0 where
  pub tls : Bool
  pub scheme : Scheme
  pub host : Text
  pub text : Text
  pub port : ℕ

abbrev pub new_url : Url
new_url = record { tls = false; scheme = unspecified; host = none; text = none; port = 3333 }

-- `UNSPECIFIED` and so on, as numbers.
abbrev pub code : Scheme → ℕ
code unspecified = 0
code stratum = 1
code daemon = 2
code socks5 = 3

abbrev pub tls_eq : Bool → Bool → Bool
tls_eq true b = b
tls_eq false b = not b

unfoldable pub is_equal : Url → Url → Bool
is_equal u other =
    tls_eq u.tls other.tls
    && code u.scheme == code other.scheme
    && text_eq u.host other.host
    && text_eq u.text other.text
    && u.port == other.port

abbrev pub has_host : Text → Bool
has_host none = false
has_host (some host) = true

abbrev pub is_valid : Url → Bool
is_valid u = has_host u.host && ltb 0 u.port

-- Of an ASCII letter, the lower case.
abbrev pub lower : ℕ → ℕ
lower c = if leb b'A' c && leb c b'Z' then c + 32 else c

-- `*text`, of a text that may be empty: the NUL at its end.
abbrev pub first : List ℕ → ℕ
first [] = 0
first (c ∷ cs) = c

abbrev pub tail : List ℕ → List ℕ
tail [] = []
tail (c ∷ cs) = cs

-- `strncasecmp(text, prefix, length of prefix) == 0`.
unfoldable pub starts_with : List ℕ → List ℕ → Bool
starts_with [] text = true
starts_with (p ∷ ps) [] = false
starts_with (p ∷ ps) (c ∷ cs) = lower p == lower c && starts_with ps cs

-- `strchr`: what stands before the first such character, and what follows it.
unfoldable pub split_at : ℕ → List ℕ → Option (List ℕ × List ℕ)
split_at c [] = none
split_at c (x ∷ xs) =
    if x == c
    then some ([], xs)
    else elim (split_at c xs) [ none ↦ none | some (before, after) ↦ some (x ∷ before, after) ]

-- What follows the first `://`.
unfoldable pub after_scheme : List ℕ → Option (List ℕ)
after_scheme [] = none
after_scheme (c ∷ cs) =
    let rest = after_scheme cs in
    if starts_with (b':' ∷ b'/' ∷ b'/' ∷ []) (c ∷ cs) then some (drop 3 (c ∷ cs)) else rest

-- The scheme that a url names, and whether it asks for TLS.
unfoldable pub known_scheme : List ℕ → Option (Scheme × Bool)
known_scheme url =
    if starts_with
      (b's' ∷ b't' ∷ b'r' ∷ b'a' ∷ b't' ∷ b'u' ∷ b'm' ∷ b'+' ∷ b't' ∷ b'c' ∷ b'p' ∷ b':' ∷ b'/'
        ∷ b'/' ∷ [])
      url
    then some (stratum, false)
    else if starts_with
        (b's' ∷ b't' ∷ b'r' ∷ b'a' ∷ b't' ∷ b'u' ∷ b'm' ∷ b'+' ∷ b's' ∷ b's' ∷ b'l' ∷ b':' ∷ b'/'
          ∷ b'/' ∷ [])
        url
    then some (stratum, true)
    else if starts_with (b's' ∷ b'o' ∷ b'c' ∷ b'k' ∷ b's' ∷ b'5' ∷ b':' ∷ b'/' ∷ b'/' ∷ []) url
    then some (socks5, false)
    else if starts_with
        (b'd' ∷ b'a' ∷ b'e' ∷ b'm' ∷ b'o' ∷ b'n' ∷ b'+' ∷ b'h' ∷ b't' ∷ b't' ∷ b'p' ∷ b's' ∷ b':'
          ∷ b'/' ∷ b'/' ∷ [])
        url
    then some (daemon, true)
    else if starts_with
        (b'd' ∷ b'a' ∷ b'e' ∷ b'm' ∷ b'o' ∷ b'n' ∷ b'+' ∷ b'h' ∷ b't' ∷ b't' ∷ b'p' ∷ b':' ∷ b'/'
          ∷ b'/' ∷ [])
        url
    then some (daemon, false)
    else none

-- `parseIPv6`, of an address from its `[` on.
unfoldable pub parse_ipv6 : List ℕ → Url → Bool × Url
parse_ipv6 addr u = elim (split_at b']' addr) [
  | none ↦ (false, u)
  | some (host, after) ↦ elim (split_at b':' after) [
    | none ↦ (false, u)
    | some (between, port) ↦
        (true, record u { host = some (tail host); port = strtol port % 2 ^ 16 })
  ]
]

-- What follows the assignment to `m_url`.
unfoldable pub parse_host : List ℕ → Url → Bool × Url
parse_host base u = if first base == b'[' then parse_ipv6 base u else elim (split_at b':' base) [
  | none ↦ (true, record u { host = some base })
  | some (host, port) ↦ (true, record u { host = some host; port = strtol port % 2 ^ 16 })
]

-- Of the text after the scheme.
unfoldable pub parse_base : List ℕ → List ℕ → Url → Bool × Url
parse_base url base u =
    if length base == 0 || first base == b'/'
    then (false, u)
    else parse_host base (record u { text = some url })

unfoldable pub parse : Text → Url → Bool × Url
parse none u = (false, u)
parse (some url) u = elim (after_scheme url) [
  | none ↦ parse_base url url u
  | some base ↦ elim (known_scheme url) [
    | none ↦ (false, u)
    | some (scheme, tls) ↦ parse_base url base (record u { scheme = scheme; tls = tls })
  ]
]

-- The constructor of a text.
abbrev pub from_text : List ℕ → Url
from_text url = (parse (some url) new_url).1

-- `%s:%d`, into a buffer that is seven bytes longer than the host, its NUL not counted.
unfoldable pub print : List ℕ → ℕ → List ℕ
print host port = take (length host + 6) (host ++ b':' ∷ decimal 5 port [])

-- The constructor of a host and a port.
unfoldable pub from_host : List ℕ → ℕ → Bool → Scheme → Url
unfolding print
from_host host port tls scheme = record {
  tls = tls;
  scheme = scheme;
  host = some host;
  text = some (print host port);
  port = port;
}
