-- ===== src/Net/Url/RoundTrip.antt =====
-- Url.cpp: an address that is made of a host and a port is read back.
use rxs_supported.Common.{
  ℕ, ◌+◌, ◌%◌, ◌^◌, ◌<◌, List, [], ◌∷◌, ◌++◌, Bool, true, false, ◌==◌, none, some, length,
  length-append, take_all, All, ◌≡◌, refl, sym, subst, arith,
}
use rxs_supported.Common.Decimal.{decimal, is_digit, decimal-Digits, length-decimal}
use rxs_supported.Net.Url.{
  Url, Scheme, new_url, first, starts_with, split_at, after_scheme, parse_host, parse_base, parse,
  print, from_host,
}
use rxs_supported.Net.Url.Strtol.{strtol, strtol-decimal}

abbrev NoColon : ℕ → Type 0
NoColon c = (c == b':') ≡ false

split_at-host :
    (host rest : List ℕ)
    → All NoColon host
    → split_at b':' (host ++ b':' ∷ rest) ≡ some (host, rest)
unfolding split_at
split_at-host [] rest h = refl
split_at-host (c ∷ host) rest (n, h) = rw (split_at, n, split_at-host host rest h) refl

-- Without a colon there is no scheme.
no_scheme : (text : List ℕ) → All NoColon text → after_scheme text ≡ none
unfolding after_scheme starts_with
no_scheme [] h = refl
no_scheme (c ∷ text) (n, h) = ground (arith, no_scheme text h)

-- Nor with one that no slash follows.
no_scheme_either :
    (host rest : List ℕ)
    → All NoColon host
    → All NoColon rest
    → (first rest == b'/') ≡ false
    → after_scheme (host ++ b':' ∷ rest) ≡ none
unfolding after_scheme starts_with
no_scheme_either [] [] h k f = refl
no_scheme_either [] (c ∷ rest) h k f = ground (arith, no_scheme (c ∷ rest) k)
no_scheme_either (c ∷ host) rest (n, h) k f = ground (arith, no_scheme_either host rest h k f)

digit-NoColon : (text : List ℕ) → All (λ c. is_digit c ≡ true) text → All NoColon text
digit-NoColon [] h = tt
digit-NoColon (c ∷ text) (p, h) = (ground arith, digit-NoColon text h)

first_digit : (text : List ℕ) → All (λ c. is_digit c ≡ true) text → (first text == b'/') ≡ false
first_digit [] h = refl
first_digit (c ∷ text) (p, h) = ground arith

print-whole : (host : List ℕ) (port : ℕ) → print host port ≡ host ++ b':' ∷ decimal 5 port []
unfolding print
print-whole host port =
    let port_text = decimal 5 port [] in
    take_all (length host + 6) (host ++ b':' ∷ port_text)
      (omega (arith, length-append host (b':' ∷ port_text), length-decimal 5 port []))

first-append : (host rest : List ℕ) → 0 < length host → first (host ++ rest) ≡ first host
first-append [] rest h = absurd (omega arith)
first-append (c ∷ host) rest h = refl

parse_base-printed :
    (url host rest : List ℕ) (u : Url)
    → 0 < length host
    → All NoColon host
    → (first host == b'/') ≡ false
    → (first host == b'[') ≡ false
    → parse_base url (host ++ b':' ∷ rest) u
      ≡ (true, record u { text = some url; host = some host; port = strtol rest % 2 ^ 16 })
unfolding parse_base parse_host
parse_base-printed url host rest u p h s b =
    let f = first-append host (b':' ∷ rest) p in
    let n : (length (host ++ b':' ∷ rest) == 0) ≡ false =
      ground (arith, length-append host (b':' ∷ rest)) in
    rw (parse_base, parse_host, n, f, s, b, split_at-host host rest h) refl

parse-printed :
    (host : List ℕ) (port : ℕ)
    → 0 < length host
    → All NoColon host
    → (first host == b'/') ≡ false
    → (first host == b'[') ≡ false
    → port < 2 ^ 16
    → let url = host ++ b':' ∷ decimal 5 port [] in
      parse (some url) new_url
      ≡ (true, record new_url { host = some host; text = some url; port = port })
unfolding parse
parse-printed host port p h s b q =
    let port_text = decimal 5 port [] in
    let all = decimal-Digits 5 port [] tt in
    let none_at =
      no_scheme_either host port_text h (digit-NoColon port_text all) (first_digit port_text all) in
    rw
      (
        parse,
        none_at,
        parse_base-printed (host ++ b':' ∷ port_text) host port_text new_url p h s b,
        strtol-decimal port q,
      )
      refl

-- An address made of a host, not empty, without a colon and without a slash or a bracket in front, and of a
-- port of 16 bits has a text that `parse` accepts and takes apart into the same host and port.
pub parse-from_host :
    (host : List ℕ) (port : ℕ) (tls : Bool) (scheme : Scheme)
    → 0 < length host
    → All NoColon host
    → (first host == b'/') ≡ false
    → (first host == b'[') ≡ false
    → port < 2 ^ 16
    → let u = from_host host port tls scheme in
      parse u.text new_url ≡ (true, record new_url { host = u.host; text = u.text; port = port })
unfolding from_host
parse-from_host host port tls scheme p h s b q =
    subst
      (λ url.
        parse (some url) new_url
        ≡ (true, record new_url { host = some host; text = some url; port = port }))
      (sym (print-whole host port)) (parse-printed host port p h s b q)
