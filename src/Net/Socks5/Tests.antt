-- ===== src/Net/Socks5/Tests.antt =====
-- Socks5.cpp at concrete input.
use rxs_supported.Common.{ℕ, ◌≤◌, List, [], ◌∷◌, Option, none, some, length, ◌≡◌, refl, arith}
use rxs_supported.Net.Socks5.{
  ready, write, buf_size, handshake, request, name_request, connect, accepted, is_good, read,
}
use rxs_supported.Net.Socks5.Request.{read_request, read_request-request}
use rxs_supported.Net.Socks5.Handshake.{count_good, reads, Asked, is_ready-Asked}

-- No host is an address.
abbrev no_address : List ℕ → Option (List ℕ)
no_address host = none

-- `pool`, and the request for it at the port 3333.
abbrev pool : List ℕ
pool = b'p' ∷ b'o' ∷ b'o' ∷ b'l' ∷ []

abbrev asked : List ℕ
asked = 5 ∷ 1 ∷ 0 ∷ 3 ∷ 4 ∷ b'p' ∷ b'o' ∷ b'o' ∷ b'l' ∷ 13 ∷ 5 ∷ []

read_request-request_example :
    (bytes : List ℕ) × (request no_address no_address pool 3333 ≡ some bytes)
    × (length bytes ≤ buf_size)
    × (read_request bytes ≡ some (pool, 3333))
read_request-request_example =
    read_request-request no_address no_address pool 3333 refl refl (omega arith) (omega arith)

-- The two replies of a proxy, the latest first.
abbrev replies : List (List ℕ)
replies = (5 ∷ 0 ∷ 0 ∷ 1 ∷ 0 ∷ []) ∷ (5 ∷ 0 ∷ []) ∷ []

replies_test :
    reads no_address no_address pool 3333 replies
    ≡ some (record { next_size = 5; state = ready }, write asked ∷ [])
unfolding read handshake accepted connect request name_request is_good
replies_test = refl

is_ready-Asked_example :
    (1 ≤ count_good 5 replies)
    × (2 ≤ count_good 2 replies)
    × Asked no_address no_address pool 3333 (asked ∷ [])
is_ready-Asked_example =
    is_ready-Asked no_address no_address pool 3333 replies (record { next_size = 5; state = ready })
      (write asked ∷ []) replies_test refl
