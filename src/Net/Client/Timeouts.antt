-- ===== src/Net/Client/Timeouts.antt =====
-- Client.cpp: deadlines, and what a pool's silence or its wish to move leads to.
use rxs_supported.Common.{
  ℕ, ◌+◌, ◌^◌, ◌<◌, ◌≤◌, List, [], ◌∷◌, ◌++◌, true, false, Option, none, some, ◌≡◌, refl, arith,
}
use rxs_supported.Net.Client.{
  Client, Socket, SocketState, host_lookup, connected, closing, reconnecting, resolving, opening,
  told_close, freed, ◌then◌, World, deadline, has_keepalive, is_proxied, set_state, start_timeout,
  reconnect, count_failure, on_close, resolve, connect, connect_to, on_resolved,
}
use rxs_supported.Net.Client.Calls.{
  Call, ask_tick, close_done, step, serve, run, tick, dispatch, has_method, reconnect_url,
  set_pool_url,
}
use rxs_supported.Net.Client.Key
use rxs_supported.Net.Client.Requests.{after_write, send_bytes}
use rxs_supported.Net.Url.{Url, from_text}
use rxs_supported.Tools.Json.{Json, get_value}

deadline-exact : (now ms : ℕ) → now + ms < 2 ^ 64 → deadline now ms ≡ now + ms
unfolding deadline
deadline-exact now ms h = ground arith

-- One that waits to reconnect, until this time.
abbrev Until : ℕ → Client → Type 0
Until d c = (c.alive ≡ true) × (c.state ≡ reconnecting) × (c.expire ≡ d)

closed_lem :
    (w : World) (n : ℕ) (s : Socket) (c : Client)
    → c.alive ≡ true
    → c.has_listener ≡ true
    → c.state ≡ closing
    → c.socket ≡ some s
    → c.failures ≡ some n
    → w.now + c.retry_pause < 2 ^ 64
    → Until (w.now + c.retry_pause) ((step w close_done c).0)
      × ((step w close_done c).1 ≡ freed s.handle ∷ told_close (some (n + 1)) ∷ [])
unfolding step serve ◌then◌ on_close set_state reconnect count_failure
closed_lem w n s c a l e k f q = ground (arith, a, l, e, k, f, deadline-exact w.now c.retry_pause q)

tick-due :
    (w : World) (now d : ℕ) (c : Client)
    → Until d c
    → 0 < d
    → d < now
    → (step w (ask_tick now) c).0.state ≡ host_lookup
unfolding step serve tick connect resolve set_state
tick-due w now d c (a, e, f) p q = ground (arith, a, e, f)

tick-early :
    (w : World) (now d : ℕ) (c : Client) → Until d c → now ≤ d → step w (ask_tick now) c ≡ (c, [])
unfolding step serve tick
tick-early w now d c (a, e, f) p = ground (arith, a, e, f)

-- A client with a listener whose socket is closed and that was not disconnected counts a failure and
-- waits; a tick after its deadline, and no tick before, has it look up its host.
pub close-reconnect :
    (w w' : World) (now n : ℕ) (s : Socket) (c : Client)
    → c.alive ≡ true
    → c.has_listener ≡ true
    → c.state ≡ closing
    → c.socket ≡ some s
    → c.failures ≡ some n
    → 0 < w.now
    → w.now + c.retry_pause < 2 ^ 64
    → let c' = (step w close_done c).0 in
      ((step w close_done c).1 ≡ freed s.handle ∷ told_close (some (n + 1)) ∷ [])
      × (w.now + c.retry_pause < now → (step w' (ask_tick now) c').0.state ≡ host_lookup)
      × (now ≤ w.now + c.retry_pause → step w' (ask_tick now) c' ≡ (c', []))
close-reconnect w w' now n s c a l e k f p q =
    let (u, effects) = closed_lem w n s c a l e k f q in
    let c' = (step w close_done c).0 in
    (
      effects,
      (λ late. tick-due w' now (w.now + c.retry_pause) c' u (omega arith) late),
      (λ early. tick-early w' now (w.now + c.retry_pause) c' u early),
    )

-- What is left of a client that waits, after a write that was taken.
Waits : Client → Type 0
Waits c = (c.alive ≡ true) × (c.state ≡ connected) × (c.expire ≡ 0) × (c.keep_alive ≡ 0)

wait-tick : (w : World) (now : ℕ) (c : Client) → Waits c → step w (ask_tick now) c ≡ (c, [])
unfolding step serve tick Waits
wait-tick w now c h = ground arith

abbrev pub ticks : List (World × ℕ) → List (World × Call)
ticks [] = []
ticks ((w, now) ∷ rest) = (w, ask_tick now) ∷ ticks rest

wait-ticks : (ts : List (World × ℕ)) (c : Client) → Waits c → run (ticks ts) c ≡ (c, [])
unfolding run ◌then◌
wait-ticks [] c h = refl
wait-ticks ((w, now) ∷ ts) c h = rw (run, wait-tick w now c h, wait-ticks ts c h) refl

-- Where neither the pool nor the configuration asks for keep-alives, a client that has sent something has
-- no deadline for the answer: however long its pool is silent, no tick does anything.
pub send_bytes-waits :
    (w : World) (bytes : List ℕ) (ts : List (World × ℕ)) (c : Client)
    → c.alive ≡ true
    → c.state ≡ connected
    → w.is_writable ≡ true
    → w.try_write bytes ≡ true
    → has_keepalive c ≡ false
    → c.keep_alive ≡ 0
    → let c' = (send_bytes w bytes c).0 in
      (c'.sequence ≡ c.sequence + 1) × (run (ticks ts) c' ≡ (c', []))
unfolding send_bytes after_write start_timeout Waits
send_bytes-waits w bytes ts c a e x y k z =
    (ground (arith, a, e, x, y, k, z), wait-ticks ts _ (ground (arith, a, e, x, y, k, z)))

-- A client with this socket and address, in this state.
abbrev Holds : SocketState → Option Socket → ℕ → Url → Client → Type 0
Holds state socket opened url c =
    (c.state ≡ state)
    × (c.socket ≡ socket)
    × (c.opened ≡ opened)
    × (c.pool.url ≡ url)
    × (c.has_listener ≡ true)
    × (c.socks5 ≡ none)
    × (is_proxied c.pool ≡ false)

asked_lem :
    (w : World) (n : ℕ) (s : Socket) (doc : Json) (url : List ℕ) (c : Client)
    → has_method w doc Key.client_reconnect ≡ true
    → reconnect_url (get_value doc Key.params) ≡ some url
    → Holds connected (some s) c.opened c.pool.url c
    → c.failures ≡ some n
    → w.now + c.retry_pause < 2 ^ 64
    → Holds reconnecting (some s) c.opened (from_text url) (dispatch w doc c).0
      × ((dispatch w doc c).0.expire ≡ w.now + c.retry_pause)
      × ((dispatch w doc c).1 ≡ told_close (some (n + 1)) ∷ [])
unfolding dispatch set_state reconnect count_failure set_pool_url
asked_lem w n s doc url c m u h f q =
    rw (dispatch, m, u) (ground (arith, h, f, deadline-exact w.now c.retry_pause q))

ticked_lem :
    (w : World) (now d k : ℕ) (s : Option Socket) (url : Url) (c : Client)
    → Holds reconnecting s k url c
    → c.expire ≡ d
    → 0 < d
    → d < now
    → Holds host_lookup s k url (tick w now c).0 × ((tick w now c).1 ≡ resolving url.host ∷ [])
unfolding tick connect resolve set_state
ticked_lem w now d k s url c h e p q = ground (arith, h, e)

resolved_lem :
    (now k : ℕ) (s : Option Socket) (url : Url) (ip : List ℕ) (c : Client)
    → Holds host_lookup s k url c
    → (on_resolved now false false ip c).1 ≡ opening k url.port ∷ []
unfolding on_resolved connect_to set_state
resolved_lem now k s url ip c h = ground (arith, h)

-- Told by its pool to reconnect, a connected client keeps its socket, and after its deadline opens
-- another one in its place: the first is not closed.
pub dispatch-leak :
    (w w' w'' : World) (now n : ℕ) (s : Socket) (doc : Json) (url ip : List ℕ) (c : Client)
    → has_method w doc Key.client_reconnect ≡ true
    → reconnect_url (get_value doc Key.params) ≡ some url
    → c.has_listener ≡ true
    → c.state ≡ connected
    → c.socket ≡ some s
    → c.failures ≡ some n
    → c.socks5 ≡ none
    → is_proxied c.pool ≡ false
    → 0 < w.now
    → w.now + c.retry_pause < now
    → now < 2 ^ 64
    → let c' = (dispatch w doc c).0 in
      let c'' = (tick w' now c').0 in
      (dispatch w doc c).1 ++ (tick w' now c').1 ++ (on_resolved w''.now false false ip c'').1
      ≡ told_close (some (n + 1))
        ∷ resolving (from_text url).host
        ∷ opening c.opened (from_text url).port
        ∷ []
dispatch-leak w w' w'' now n s doc url ip c m u l e k f x y p q r =
    let start : Holds connected (some s) c.opened c.pool.url c = (e, k, refl, refl, l, x, y) in
    let (a, d, es) = asked_lem w n s doc url c m u start f (omega arith) in
    let c' = (dispatch w doc c).0 in
    let (b, fs) = ticked_lem w' now _ c.opened (some s) (from_text url) c' a d (omega arith) q in
    rw (es, fs, resolved_lem w''.now c.opened (some s) (from_text url) ip (tick w' now c').0 b) refl
