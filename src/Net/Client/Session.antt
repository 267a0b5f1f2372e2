-- ===== src/Net/Client/Session.antt =====
-- Client.cpp: the socket, the state and the deadline of a client over any history of calls.
use rxs_supported.Common.{ℕ, ◌+◌, ◌^◌, ◌<◌, List, Bool, true, false, Option, none, some, ◌≡◌, arith}
use rxs_supported.Net.Client.{
  Client, Socket, SocketState, unconnected, host_lookup, connecting, connected, closing,
  reconnecting, Act, ◌then◌, World, close, close_socket, deadline, connect_timeout, set_state,
  reconnect, count_failure, disconnect,
}
use rxs_supported.Net.Client.Moves.{Moves, still, cleared, shut, told, edit, both}
use rxs_supported.Net.Client.Responses.{handle_submit_response}
use rxs_supported.Tools.Json.{Integer}

-- Which states hold a socket, and whether libuv is closing it; when a resolver's answer is waited for.
abbrev pub Shape : SocketState → Option Socket → Bool → Type 0
Shape unconnected none false = Unit
Shape host_lookup none d = Unit
Shape connecting (some s) false = s.is_closing ≡ false
Shape connected (some s) false = s.is_closing ≡ false
Shape closing (some s) false = s.is_closing ≡ true
Shape reconnecting none false = Unit
Shape _ _ _ = ⊥

-- A client that connects, or waits to reconnect and was not disconnected, has a deadline.
abbrev pub Timed : SocketState → Option ℕ → ℕ → Type 0
Timed connecting f e = 0 < e
Timed reconnecting (some n) e = 0 < e
Timed _ _ _ = Unit

abbrev pub Sound : Client → Type 0
Sound c = Shape c.state c.socket c.dns × Timed c.state c.failures c.expire

-- While lines are read.
abbrev pub InSession : SocketState → Option Socket → Bool → Type 0
InSession connected (some s) false = s.is_closing ≡ false
InSession closing (some s) false = s.is_closing ≡ true
InSession _ _ _ = ⊥

abbrev pub Session : Client → Type 0
Session c = InSession c.state c.socket c.dns

sound_by_cases :
    (s : SocketState) (k : Option Socket) (d : Bool) (f : Option ℕ) (e : ℕ)
    → InSession s k d
    → Shape s k d × Timed s f e
sound_by_cases unconnected k d f e h = absurd h
sound_by_cases host_lookup k d f e h = absurd h
sound_by_cases connecting k d f e h = absurd h
sound_by_cases connected none d f e h = absurd h
sound_by_cases connected (some k) true f e h = absurd h
sound_by_cases closing none d f e h = absurd h
sound_by_cases closing (some k) true f e h = absurd h
sound_by_cases reconnecting k d f e h = absurd h
sound_by_cases connected (some k) false f e h = (h, tt)
sound_by_cases closing (some k) false f e h = (h, tt)

pub Session-Sound : (c : Client) → Session c → Sound c
Session-Sound c h = sound_by_cases c.state c.socket c.dns c.failures c.expire h

close-Session : (c : Client) → Session c → Session (close c).0
unfolding close close_socket
close-Session c h = ground arith

told-Session :
    (w : World) (id : Integer) (error : Option (List ℕ)) (c : Client)
    → Session c
    → Session (handle_submit_response w id error c).0
unfolding handle_submit_response
told-Session w id error c h = ground arith

pub Moves-Session : (w : World) (c : Client) (p : Act) → Moves w c p → Session c → Session (p.0)
unfolding ◌then◌
Moves-Session w _ _ (still c c' es a q) h = rw (a.0, a.1, a.2) h
Moves-Session w _ _ (cleared c) h = h
Moves-Session w _ _ (shut c) h = close-Session c h
Moves-Session w _ _ (told id error c) h = told-Session w id error c h
Moves-Session w _ _ (edit c q c' m a) h = rw (a.0, a.1, a.2) (Moves-Session w c q m h)
Moves-Session w _ _ (both c q k m n) h = Moves-Session w (q.0) (k (q.0)) n (Moves-Session w c q m h)

abbrev pub OpenSocket : Option Socket → Type 0
OpenSocket none = ⊥
OpenSocket (some s) = s.is_closing ≡ false

abbrev pub ClosingSocket : Option Socket → Type 0
ClosingSocket none = ⊥
ClosingSocket (some s) = s.is_closing ≡ true

-- The clock runs, and its readings and the deadlines from them fit 64 bits.
abbrev pub Clock : World → Client → Type 0
Clock w c = (0 < w.now) × (w.now + connect_timeout < 2 ^ 64) × (w.now + c.retry_pause < 2 ^ 64)

pub deadline-Positive : (now ms : ℕ) → 0 < now → now + ms < 2 ^ 64 → 0 < deadline now ms
unfolding deadline
deadline-Positive now ms h k = ground arith

pub close-Sound : (c : Client) → Sound c → Sound (close c).0
unfolding close close_socket
close-Sound c h = ground arith

pub disconnect-Sound : (c : Client) → Sound c → Sound (disconnect c).0
unfolding disconnect close close_socket
disconnect-Sound c h = ground arith

pub reconnect-Sound :
    (w : World) (c : Client)
    → Clock w c
    → c.socket ≡ none
    → c.dns ≡ false
    → Sound c
    → Sound (reconnect w.now c).0
unfolding reconnect count_failure set_state
reconnect-Sound w c k e d h = ground (arith, deadline-Positive w.now c.retry_pause)
