-- ===== src/Net/Socks5/Request.antt =====
-- Socks5.cpp: the request for a host by its name, against a reader of such requests.
use rxs_supported.Common.{
  take-append, drop-append, ℕ, ◌+◌, ◌*◌, ◌/◌, ◌%◌, ◌^◌, ◌≤◌, ◌<◌, List, [], ◌∷◌, ◌++◌, true, false,
  ◌&&◌, ltb, ◌==◌, if◌then◌else◌, Option, none, some, take, drop, length, length-append, ◌≡◌, refl,
  arith,
}
use rxs_supported.Net.Socks5.{name_request, request, connect, port_bytes, buf_size}

-- A port of two bytes in network byte order, and nothing after it.
abbrev pub read_port : List ℕ → Option ℕ
read_port (hi ∷ lo ∷ []) = some (hi * 2 ^ 8 + lo)
read_port _ = none

abbrev pub with_port : List ℕ → Option ℕ → Option (List ℕ × ℕ)
with_port host none = none
with_port host (some port) = some (host, port)

-- What a proxy reads: a request to connect to a named host, by the length before its name.
abbrev pub read_request : List ℕ → Option (List ℕ × ℕ)
read_request (version ∷ command ∷ reserved ∷ kind ∷ n ∷ rest) =
    if version == 5 && command == 1 && reserved == 0 && kind == 3
    then with_port (take n rest) (read_port (drop n rest))
    else none
read_request _ = none

port_lem : (port : ℕ) → port < 2 ^ 16 → port / 2 ^ 8 % 2 ^ 8 * 2 ^ 8 + port % 2 ^ 8 ≡ port
port_lem port h = omega arith

module _ (ip4_addr ip6_addr : List ℕ → Option (List ℕ)) where
  -- The request for a host that is no address, with a name of at most 255 bytes, is written within the
  -- buffer, and a proxy reads from it that name and the port.
  pub read_request-request :
      (host : List ℕ) (port : ℕ)
      → ip4_addr host ≡ none
      → ip6_addr host ≡ none
      → length host < 256
      → port < 2 ^ 16
      → (bytes : List ℕ) × (request ip4_addr ip6_addr host port ≡ some bytes)
        × (length bytes ≤ buf_size)
        × (read_request bytes ≡ some (host, port))
  unfolding request name_request
  read_request-request host port f s h p =
      let fits : ltb buf_size (length host + 7) ≡ false = ground arith in
      let small : length host % 2 ^ 8 ≡ length host = omega arith in
      (
        5 ∷ 1 ∷ 0 ∷ 3 ∷ length host % 2 ^ 8 ∷ (host ++ port_bytes port),
        rw (request, f, s, name_request, fits) refl,
        omega (arith, length-append host (port_bytes port)),
        rw
            (
              small,
              take-append host (port_bytes port),
              drop-append host (port_bytes port),
              port_lem port p,
            )
            refl,
      )

  -- A host that is no address and has a name of 258 bytes or more is written past the buffer.
  connect_overflow :
      (host : List ℕ) (port : ℕ)
      → ip4_addr host ≡ none
      → ip6_addr host ≡ none
      → 258 ≤ length host
      → connect ip4_addr ip6_addr host port ≡ none
  unfolding connect request name_request
  connect_overflow host port f s h =
      let past : ltb buf_size (length host + 7) ≡ true = ground arith in
      rw (connect, request, f, s, name_request, past) refl
