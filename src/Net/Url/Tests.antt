-- ===== src/Net/Url/Tests.antt =====
-- Addresses as text.
use rxs_supported.Common.{ℕ, List, [], ◌∷◌, true, some, ◌≡◌, refl, arith}
use rxs_supported.Net.Url.{
  stratum, socks5, new_url, from_host, parse, parse_base, parse_host, parse_ipv6, split_at,
  starts_with, after_scheme, known_scheme,
}
use rxs_supported.Net.Url.RoundTrip.{parse-from_host}
use rxs_supported.Net.Url.Strtol.{strtol}

abbrev host : List ℕ
host = b'p' ∷ b'.' ∷ b'x' ∷ []

parse-from_host_example : parse (from_host host 3334 true stratum).text new_url ≡ (
  true,
  record new_url { host = some host; text = (from_host host 3334 true stratum).text; port = 3334 },
)
unfolding from_host
parse-from_host_example =
    parse-from_host host 3334 true stratum (omega arith) (refl, (refl, (refl, tt))) refl refl
      (omega arith)

-- `SOCKS5://[::1]:99999`: the port is cut to 16 bits.
abbrev bracketed : List ℕ
bracketed =
    b'S' ∷ b'O' ∷ b'C' ∷ b'K' ∷ b'S' ∷ b'5' ∷ b':' ∷ b'/' ∷ b'/' ∷ b'[' ∷ b':' ∷ b':' ∷ b'1' ∷ b']'
    ∷ b':' ∷ b'9' ∷ b'9' ∷ b'9' ∷ b'9' ∷ b'9' ∷ []

parse-bracketed : parse (some bracketed) new_url ≡ (
  true,
  record new_url {
    scheme = socks5;
    host = some (b':' ∷ b':' ∷ b'1' ∷ []);
    text = some bracketed;
    port = 34463;
  },
)
unfolding parse after_scheme starts_with known_scheme parse_base parse_host parse_ipv6 split_at
    strtol
parse-bracketed = refl
