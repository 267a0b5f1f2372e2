-- ===== src/Net/Socks5.antt =====
-- base/net/stratum/Socks5.{h,cpp}: the handshake with a SOCKS5 proxy.
pub mod Request
pub mod Handshake
mod Tests
use rxs_supported.Common.{
  ℕ, zero, suc, ◌+◌, ◌-◌, ◌*◌, ◌/◌, ◌%◌, ◌^◌, List, [], ◌∷◌, ◌++◌, Bool, true, false, not, ◌&&◌,
  ltb, leb, ◌==◌, if◌then◌else◌, Option, none, some, get_elem?, length,
}

pub data State : Type 0 where
  created sent_initial_handshake sent_final_handshake ready : State

pub record Socks5 : Type 0 where
  pub next_size : ℕ
  pub state : State

abbrev pub new_socks5 : Socks5
new_socks5 = record { next_size = 0; state = created }

-- What it has its client do.
pub data Effect : Type 0 where
  write : (bytes : List ℕ) → Effect
  close : Effect

abbrev pub is_ready : Socks5 → Bool
is_ready s = elim s.state [
  | created ↦ false
  | sent_initial_handshake ↦ false
  | sent_final_handshake ↦ false
  | ready ↦ true
]

unfoldable pub handshake : Socks5 → Socks5 × List Effect
handshake s =
    (record { next_size = 2; state = sent_initial_handshake }, write (5 ∷ 1 ∷ 0 ∷ []) ∷ [])

-- sizeof(buf) in `connect`.
abbrev pub buf_size : ℕ
buf_size = 264

-- The port in network byte order.
abbrev pub port_bytes : ℕ → List ℕ
port_bytes port = port / 2 ^ 8 % 2 ^ 8 ∷ port % 2 ^ 8 ∷ []

-- The reply's first two bytes; `none` is a read past the data.
unfoldable pub is_good : List ℕ → Option Bool
is_good bytes = elim (get_elem? bytes 0) [
  | none ↦ none
  | some a ↦
      if not (a == 5)
      then some false
      else elim (get_elem? bytes 1) [ none ↦ none | some b ↦ some (b == 0) ]
]

-- The numbers of an address are from libuv, `uv_ip4_addr` and `uv_ip6_addr`: the four or sixteen bytes
-- of a host that is one.
module _ (ip4_addr ip6_addr : List ℕ → Option (List ℕ)) (host : List ℕ) (port : ℕ) where
  -- The request of `connect` for a host by its name; `none` is a write past the buffer.
  unfoldable pub name_request : Option (List ℕ)
  name_request =
      if ltb buf_size (length host + 7)
      then none
      else some (5 ∷ 1 ∷ 0 ∷ 3 ∷ length host % 2 ^ 8 ∷ (host ++ port_bytes port))

  unfoldable pub request : Option (List ℕ)
  unfolding name_request
  request = elim (ip4_addr host) [
    | some addr ↦ some (5 ∷ 1 ∷ 0 ∷ 1 ∷ (addr ++ port_bytes port))
    | none ↦ elim (ip6_addr host) [
      | some addr ↦ some (5 ∷ 1 ∷ 0 ∷ 4 ∷ (addr ++ port_bytes port))
      | none ↦ name_request
    ]
  ]

  unfoldable pub connect : Option (Socks5 × List Effect)
  unfolding request
  connect = elim request [
    | none ↦ none
    | some bytes ↦ some (record { next_size = 5; state = sent_final_handshake }, write bytes ∷ [])
  ]

  -- What follows a reply that begins with 5 and 0.
  unfoldable pub accepted : Socks5 → Option (Socks5 × List Effect)
  unfolding connect
  accepted s = elim s.state [
    | created ↦ some (record s { state = ready }, [])
    | sent_initial_handshake ↦ connect
    | sent_final_handshake ↦ some (record s { state = ready }, [])
    | ready ↦ some (record s { state = ready }, [])
  ]

  -- `read`: its answer, what the object is after it, and what the client is told. `none` is a read or a write
  -- out of bounds.
  unfoldable pub read : List ℕ → Socks5 → Option (Bool × Socks5 × List Effect)
  unfolding accepted is_good
  read bytes s =
      if ltb (length bytes) s.next_size then some (false, s, []) else elim (is_good bytes) [
        | none ↦ none
        | some false ↦ some (true, s, close ∷ [])
        | some true ↦ elim (accepted s) [
          | none ↦ none
          | some (s', effects) ↦ some (true, s', effects)
        ]
      ]
