-- ===== src/Net/Client/Histories.antt =====
-- Client.cpp: every call keeps a client's socket, state and deadline in step.
use rxs_supported.Common.{List, [], ◌∷◌, true, none, some, All, drop, ◌≡◌, length}
use rxs_supported.Net.Client.{Client, connected, World}
use rxs_supported.Net.Client.Calls.{
  Call, ask_connect, ask_connect_pool, dns_answer, connect_answer, close_done, data_read, step,
}
use rxs_supported.Net.Client.Moves.{Moves, Calm}
use rxs_supported.Net.Client.Session.{Session, Clock, OpenSocket, ClosingSocket}
use rxs_supported.Net.Socks5 as Socks
use rxs_supported.Tools.Json.{Json}
use rxs_supported.Net.LineReader as LineReader

module _ (w : World) where
  -- What a call's caller promises: libuv reports a connection of the socket that is open, and the end of the one
  -- that is closing; a client that has a socket is not asked to connect.
  abbrev pub Possible : Client → Call → Type 0
  Possible c ask_connect = c.socket ≡ none
  Possible c (ask_connect_pool p) = c.socket ≡ none
  Possible c (dns_answer failed empty ip) = c.dns ≡ true
  Possible c (connect_answer true) = OpenSocket c.socket
  Possible c close_done = ClosingSocket c.socket
  Possible c _ = Unit

  -- What is read comes from the socket of the connection: from one that a `client.reconnect` left open it
  -- can come in any state.
  abbrev pub Own : Client → Call → Type 0
  Own c (data_read bytes) = c.state ≡ connected
  Own c _ = Unit

  -- No line that is read is a `client.reconnect`.
  abbrev pub Steady : Client → Call → Type 0
  Steady c (data_read (some bytes)) =
      All (λ line. Calm w (w.parse_json line))
        (drop (length c.reader.lines) (LineReader.parse c.reader bytes).lines)
  Steady c _ = Unit

-- Of every call of a history, when it is made.
abbrev pub Along : (World → Client → Call → Type 0) → List (World × Call) → Client → Type 0
Along P [] c = Unit
Along P ((w, call) ∷ calls) c = P w c call × Along P calls (step w call c).0

-- The clock runs, deadlines fit 64 bits, and every call is possible when it is made.
abbrev pub Plausible : List (World × Call) → Client → Type 0
Plausible = Along (λ w c call. Clock w c × Possible w c call)
