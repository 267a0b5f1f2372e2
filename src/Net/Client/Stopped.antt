-- ===== src/Net/Client/Stopped.antt =====
-- Client.cpp: a client that was disconnected.
use rxs_supported.Common.{ℕ, List, [], ◌∷◌, Bool, true, false, Option, none, some, All, ◌≡◌, arith}
use rxs_supported.Net.Client.{
  Client, Socket, SocketState, unconnected, host_lookup, closing, reconnecting, Effect, resolving,
  opening, Act, ◌then◌, World, close, close_socket, port_of, set_state, connect_to, on_resolved,
  disconnect,
}
use rxs_supported.Net.Client.Calls.{
  Call, ask_connect, ask_disconnect, ask_connect_pool, dns_answer, step, serve, run,
}
use rxs_supported.Tools.Json.{Json}

abbrev Stop : SocketState → Option Socket → Bool → Option ℕ → ℕ → Type 0
Stop unconnected none false none e = Unit
Stop closing (some s) false none e = s.is_closing ≡ true
Stop reconnecting none false none e = e ≡ 0
Stop _ _ _ _ _ = ⊥

abbrev Stopped : Client → Type 0
Stopped c = Stop c.state c.socket c.dns c.failures c.expire

-- No host is looked up, and no connection opened.
abbrev pub Resting : Effect → Type 0
Resting (resolving host) = ⊥
Resting (opening handle port) = ⊥
Resting _ = Unit

-- Of a call that does not ask the client to connect.
abbrev pub Unasked : Call → Type 0
Unasked ask_connect = ⊥
Unasked (ask_connect_pool p) = ⊥
Unasked _ = Unit

-- It stays as it is, and what it does is no connection.
abbrev Rests : Act → Type 0
Rests p = Stopped (p.0) × All Resting p.1

module _ (w : World) where
  close-Rests : (c : Client) → Stopped c → Rests (close c)
  unfolding close close_socket
  close-Rests c h = ground arith

abbrev pub AllUnasked : List (World × Call) → Type 0
AllUnasked = All (λ (x : World × Call). Unasked x.1)

-- A client without a socket that is disconnected while its host is looked up goes on: when the resolver
-- answers with an address, it opens a connection to it.
pub disconnect_during_lookup :
    (w w' : World) (empty : Bool) (ip : List ℕ) (c : Client)
    → c.alive ≡ true
    → c.has_listener ≡ true
    → c.state ≡ host_lookup
    → c.socket ≡ none
    → (run ((w, ask_disconnect) ∷ (w', dns_answer false empty ip) ∷ []) c).1
      ≡ opening c.opened (port_of c) ∷ []
unfolding run step serve ◌then◌ disconnect close on_resolved connect_to set_state
disconnect_during_lookup w w' empty ip c a l s k = ground (arith, a, l, s, k)
