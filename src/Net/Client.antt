-- ===== src/Net/Client.antt =====
-- base/net/stratum/Client.{h,cpp} and BaseClient.{h,cpp}, built with RXS_FEATURE_HTTP and without
-- RXS_FEATURE_TLS: the state of a pool's connection, the socket and its deadlines.
pub mod Key
pub mod Requests
pub mod Responses
pub mod Calls
pub mod Moves
pub mod Session
pub mod Histories
pub mod Reports
pub mod Submissions
pub mod Stopped
pub mod Timeouts
pub mod Buffers
pub mod Jobs
mod Tests
use rxs_supported.Common.{
  ℕ, zero, suc, ◌+◌, ◌-◌, ◌*◌, ◌/◌, ◌%◌, ◌^◌, List, [], ◌∷◌, ◌++◌, Bool, true, false, not, ◌&&◌,
  ◌||◌, ltb, leb, ◌==◌, if◌then◌else◌, Option, none, some, length,
}
use rxs_supported.Net.LineReader.{LineReader, reset}
use rxs_supported.Net.Socks5.{Socks5, new_socks5}
use rxs_supported.Net.Job.{Job, Text}
use rxs_supported.Net.Url.{Url, code}
use rxs_supported.Tools.Json.{Json}

pub data SocketState : Type 0 where
  unconnected host_lookup connecting connected closing reconnecting : SocketState

-- As numbers, in the order of the enumeration.
abbrev pub state_number : SocketState → ℕ
state_number unconnected = 0
state_number host_lookup = 1
state_number connecting = 2
state_number connected = 3
state_number closing = 4
state_number reconnecting = 5

-- A uv_tcp_t, and whether `uv_is_closing` of it.
pub record Socket : Type 0 where
  pub handle : ℕ
  pub is_closing : Bool

-- The bits of `m_extensions`.
pub record Extensions : Type 0 where
  pub algo : Bool
  pub nicehash : Bool
  pub connect : Bool
  pub keepalive : Bool

abbrev pub no_extensions : Extensions
no_extensions = record { algo = false; nicehash = false; connect = false; keepalive = false }

-- A Pool, as far as a client reads it. `coin` is the algorithm of a coin that is valid; `self_select`
-- says that the mode is MODE_SELF_SELECT.
pub record Pool : Type 0 where
  pub url : Url
  pub proxy : Url
  pub keep_alive : ℕ
  pub nicehash : Bool
  pub self_select : Bool
  pub algorithm : ℕ
  pub coin : Option ℕ
  pub user : Text
  pub password : Text
  pub rig_id : Text

pub record SubmitResult : Type 0 where
  pub seq : ℕ
  pub diff : ℕ
  pub actual_diff : ℕ
  pub backend : ℕ
  pub start : ℕ
  pub elapsed : ℕ

-- A callback, known by a number, and when it was sent.
pub record SendResult : Type 0 where
  pub callback : ℕ
  pub ts : ℕ

-- `failures` is `none` for -1; `has_listener` is `m_listener != nullptr`; `dns` says that a request is
-- held; `send_buf` is the size of that buffer. `opened` counts the handles made; `alive` is false once
-- the client is deleted or the program has ended in a fault.
pub record Client : Type 0 where
  pub id : ℕ
  pub has_listener : Bool
  pub failures : Option ℕ
  pub job : Job
  pub pool : Pool
  pub state : SocketState
  pub callbacks : List (ℕ × SendResult)
  pub results : List (ℕ × SubmitResult)
  pub user : Text
  pub password : Text
  pub rig_id : Text
  pub agent : List ℕ
  pub retry_pause : ℕ
  pub sequence : ℕ
  pub reader : LineReader
  pub socks5 : Option Socks5
  pub extensions : Extensions
  pub dns : Bool
  pub ip : Text
  pub send_buf : ℕ
  pub rpc_id : Text
  pub expire : ℕ
  pub jobs : ℕ
  pub keep_alive : ℕ
  pub socket : Option Socket
  pub opened : ℕ
  pub alive : Bool

-- Calls of libuv and of the resolver, then of the listener, then of a callback of `send`.
pub data Effect : Type 0 where
  resolving : (host : Text) → Effect
  opening : (handle port : ℕ) → Effect
  uv_closing reading freed : (handle : ℕ) → Effect
  sent : (bytes : List ℕ) → Effect
  told_close : (failures : Option ℕ) → Effect
  told_login : Effect
  told_job : Job → Effect
  told_result : SubmitResult → (error : Text) → Effect
  asked_verify : (algorithm : ℕ) → Effect
  answered : (callback : ℕ) (success : Bool) (elapsed : ℕ) → Effect
  deleted faulted : Effect

-- What a call finds outside: the clock, libuv's answers, rapidjson's writer and parser, libuv's parsers
-- of addresses, and the listener's answers to `onLogin` and `onVerifyAlgorithm`.
pub record World : Type 0 where
  pub now : ℕ
  pub is_writable : Bool
  pub try_write : List ℕ → Bool
  pub write_json : Json → List ℕ
  pub parse_json : List ℕ → Option Json
  pub ip4_addr : List ℕ → Option (List ℕ)
  pub ip6_addr : List ℕ → Option (List ℕ)
  pub on_login : Json → Json
  pub verify : ℕ → Bool

-- The client after a call, and the calls that it made.
abbrev pub Act : Type 0
Act = Client × List Effect

infixl 20 ◌then◌
unfoldable pub ◌then◌ : Act → (Client → Act) → Act
(c, es) then k = let (c', fs) = k c in (c', es ++ fs)

abbrev pub connect_timeout : ℕ
connect_timeout = 20 * 1000

abbrev pub response_timeout : ℕ
response_timeout = 20 * 1000

abbrev pub is_proxied : Pool → Bool
is_proxied p = ltb 0 p.proxy.port && (code p.proxy.scheme == 0 || code p.proxy.scheme == 3)

-- `127.0.0.1`, of a proxy that is only a port.
abbrev pub proxy_host : Pool → Text
proxy_host p = elim p.proxy.host [
  | none ↦ some (b'1' ∷ b'2' ∷ b'7' ∷ b'.' ∷ b'0' ∷ b'.' ∷ b'0' ∷ b'.' ∷ b'1' ∷ [])
  | some host ↦ some host
]

abbrev pub has_keepalive : Client → Bool
has_keepalive c = c.extensions.keepalive || ltb 0 c.pool.keep_alive

abbrev pub has_nicehash : Client → Bool
has_nicehash c = c.extensions.nicehash || c.pool.nicehash

-- A number of milliseconds from now, in 64 bits.
unfoldable pub deadline : ℕ → ℕ → ℕ
deadline now ms = (now + ms) % 2 ^ 64

-- `m_expire` after the switch of `setState`.
abbrev pub expiry : ℕ → SocketState → Client → ℕ
expiry now host_lookup c = 0
expiry now connecting c = deadline now connect_timeout
expiry now reconnecting c = deadline now c.retry_pause
expiry now unconnected c = c.expire
expiry now connected c = c.expire
expiry now closing c = c.expire

unfoldable pub set_state : ℕ → SocketState → Client → Client
set_state now s c =
    if state_number c.state == state_number s
    then c
    else record c { state = s; expire = expiry now s c }

-- Pool::kKeepAliveTimeout.
abbrev pub keep_alive_timeout : ℕ
keep_alive_timeout = 60

abbrev pub keep_alive_ms : Pool → ℕ
keep_alive_ms p = (if ltb 0 p.keep_alive then p.keep_alive else keep_alive_timeout) * 1000

unfoldable pub start_timeout : ℕ → Client → Client
start_timeout now c =
    if has_keepalive c
    then record c { expire = 0; keep_alive = deadline now (keep_alive_ms c.pool) }
    else record c { expire = 0 }

-- `close` from the change of state on, of a client that holds this socket.
unfoldable pub close_socket : Socket → Client → Act
close_socket s c =
    let c' = record c { state = closing; socket = some (record s { is_closing = true }) } in
    if s.is_closing then (c', []) else (c', uv_closing s.handle ∷ [])

-- The state after `close`, and the calls.
unfoldable pub close : Client → Act
unfolding close_socket
close c =
    if state_number c.state == 4 || state_number c.state == 0
    then (c, [])
    else elim c.socket [ none ↦ (c, []) | some s ↦ close_socket s c ]

-- The answer of `close`: that a socket is held by a client that is not unconnected.
abbrev pub close_answer : Client → Bool
close_answer c = not (state_number c.state == 0) && elim c.socket [ none ↦ false | some s ↦ true ]

unfoldable pub disconnect : Client → Act
disconnect c = close (record c { keep_alive = 0; expire = 0; failures = none })

-- `m_storage.remove`, which deletes the client.
abbrev pub remove : Client → Act
remove c = (record c { alive = false }, deleted ∷ [])

unfoldable pub delete_later : Client → Act
delete_later c =
    if not c.has_listener
    then (c, [])
    else let c' = record c { has_listener = false } in
      if close_answer c' then disconnect c' else disconnect c' then remove

unfoldable pub count_failure : ℕ → Client → Act
count_failure now c = elim c.failures [
  | none ↦ (c, told_close none ∷ [])
  | some n ↦ (
    record (set_state now reconnecting c) { failures = some (n + 1) },
    told_close (some (n + 1)) ∷ [],
  )
]

unfoldable pub reconnect : ℕ → Client → Act
unfolding count_failure
reconnect now c =
    if not c.has_listener then remove c else count_failure now (record c { keep_alive = 0 })

-- The member function `onClose`, called when libuv has closed the socket.
unfoldable pub on_close : ℕ → Client → Act
on_close now c =
    let es : List Effect = elim c.socket [ none ↦ [] | some s ↦ freed s.handle ∷ [] ] in
    (set_state now unconnected (record c { socket = none }), es) then reconnect now

unfoldable pub resolve : ℕ → Text → Client → Act
resolve now host c = (
  record (set_state now host_lookup c) {
    reader = reset c.reader;
    failures = elim c.failures [ none ↦ some 0 | some n ↦ some n ];
    dns = true;
  },
  resolving host ∷ [],
)

-- `connect()`.
unfoldable pub connect : ℕ → Client → Act
connect now c =
    if is_proxied c.pool
    then resolve now (proxy_host c.pool) (record c { socks5 = some new_socks5 })
    else resolve now c.pool.url.host c

-- `connect` to an address.
unfoldable pub connect_to : ℕ → ℕ → Client → Act
connect_to now port c = (
  record (set_state now connecting c) {
    socket = some (record { handle = c.opened; is_closing = false });
    opened = c.opened + 1;
  },
  opening c.opened port ∷ [],
)

abbrev pub port_of : Client → ℕ
port_of c = elim c.socks5 [ none ↦ c.pool.url.port | some s ↦ c.pool.proxy.port ]

-- `onResolved` with a status below zero or not, and records, which are empty or begin with this address.
unfoldable pub on_resolved : ℕ → Bool → Bool → List ℕ → Client → Act
on_resolved now failed empty ip c =
    let c' = record c { dns = false } in
    if not c.has_listener || (failed && empty)
    then reconnect now c'
    else connect_to now (port_of c') (record c' { ip = some ip })
