-- ===== src/Net/Client/Requests.antt =====
-- Client.cpp: what a client sends.
use rxs_supported.Common.{
  ℕ, ◌+◌, ◌-◌, ◌*◌, ◌/◌, ◌%◌, ◌^◌, List, [], ◌∷◌, ◌++◌, Bool, true, false, not, ◌&&◌, ◌||◌, ltb,
  ◌==◌, if◌then◌else◌, Option, none, some, length, take, drop,
}
use rxs_supported.Common.Decimal.{decimal}
use rxs_supported.Common.Maps.{put, insert}
use rxs_supported.Net.Client.{
  Client, sent, faulted, Act, ◌then◌, World, SubmitResult, state_number, deadline, response_timeout,
  start_timeout, close,
}
use rxs_supported.Net.Client.Key
use rxs_supported.Net.Job.{Text, text_eq, to_diff, little_endian}
use rxs_supported.Net.Socks5 as Socks
use rxs_supported.Tools.Json.{Json, null, number, text, object, Members, end, member}
use rxs_supported.Tools.Cvt.{bin2hex_loop}
use rxs_supported.Crypto.Algorithm.{is_valid, name_in, names}

-- JobResult.
pub record JobResult : Type 0 where
  pub algorithm : ℕ
  pub client_id : Text
  pub job_id : Text
  pub backend : ℕ
  pub nonce : ℕ
  pub diff : ℕ
  pub result : List ℕ
  pub miner_signature : Option (List ℕ)
  pub commitment : Option (List ℕ)

-- `reinterpret_cast<const uint64_t*>(m_result)[3]`.
abbrev pub actual_diff : JobResult → ℕ
actual_diff r = to_diff (little_endian (take 8 (drop 24 r.result)))

-- The bytes of a uint32_t, in little-endian order.
abbrev pub bytes32 : ℕ → List ℕ
bytes32 n = n % 2 ^ 8 ∷ n / 2 ^ 8 % 2 ^ 8 ∷ n / 2 ^ 16 % 2 ^ 8 ∷ n / 2 ^ 24 % 2 ^ 8 ∷ []

-- AddMember: at the end.
abbrev pub add_members : Members → Members → Members
add_members end more = more
add_members (member k v ms) more = member k v (add_members ms more)

abbrev pub optional : List ℕ → Option (List ℕ) → Members
optional key none = end
optional key (some t) = member key (text t) end

-- A String's `toJSON`.
abbrev pub to_json : Text → Json
to_json none = null
to_json (some t) = text t

-- JsonRequest::create, in an object that is empty.
abbrev pub create : ℕ → List ℕ → Json → Json
create id method params = object (
    member Key.id (number id) (
      member Key.jsonrpc (text Key.two_zero)
        (member Key.method (text method) (member Key.params params end))))

-- `%s`, with what the C library prints of a null pointer.
abbrev pub print : Text → List ℕ
print none = b'(' ∷ b'n' ∷ b'u' ∷ b'l' ∷ b'l' ∷ b')' ∷ []
print (some t) = t

-- The text of `ping` before its number, between this and the session's id, and after that.
unfoldable pub ping_head : List ℕ
ping_head = b'{' ∷ b'"' ∷ b'i' ∷ b'd' ∷ b'"' ∷ b':' ∷ []

unfoldable pub ping_middle : List ℕ
ping_middle =
    b',' ∷ b'"' ∷ b'j' ∷ b's' ∷ b'o' ∷ b'n' ∷ b'r' ∷ b'p' ∷ b'c' ∷ b'"' ∷ b':' ∷ b'"' ∷ b'2' ∷ b'.'
    ∷ b'0' ∷ b'"' ∷ b',' ∷ b'"' ∷ b'm' ∷ b'e' ∷ b't' ∷ b'h' ∷ b'o' ∷ b'd' ∷ b'"' ∷ b':' ∷ b'"'
    ∷ b'k' ∷ b'e' ∷ b'e' ∷ b'p' ∷ b'a' ∷ b'l' ∷ b'i' ∷ b'v' ∷ b'e' ∷ b'd' ∷ b'"' ∷ b',' ∷ b'"'
    ∷ b'p' ∷ b'a' ∷ b'r' ∷ b'a' ∷ b'm' ∷ b's' ∷ b'"' ∷ b':' ∷ b'{' ∷ b'"' ∷ b'i' ∷ b'd' ∷ b'"'
    ∷ b':' ∷ b'"' ∷ []

unfoldable pub ping_tail : List ℕ
ping_tail = b'"' ∷ b'}' ∷ b'}' ∷ 10 ∷ []

-- 20 digits are enough for an int64_t.
unfoldable pub ping_text : Client → List ℕ
ping_text c = ping_head ++ decimal 20 c.sequence [] ++ ping_middle ++ print c.rpc_id ++ ping_tail

-- An algorithm's name.
abbrev pub name_of : ℕ → Option (List ℕ)
name_of id = name_in names id

module _ (w : World) where
  -- `write`: whether all the bytes were taken.
  unfoldable pub write : List ℕ → Client → Act
  write bytes c = if w.try_write bytes then (c, sent bytes ∷ []) else close c

  -- What follows the write in `send` of a size: the counter is shared by all clients.
  unfoldable pub after_write : Client → Client
  after_write c =
      let c' = start_timeout w.now (record c { expire = deadline w.now response_timeout }) in
      record c' { sequence = c'.sequence + 1 }

  -- `send` of a size; `bytes` is that much of `m_sendBuf`.
  unfoldable pub send_bytes : List ℕ → Client → Act
  unfolding write
  send_bytes bytes c =
      if not (state_number c.state == 3) || not w.is_writable
      then (c, [])
      else if w.try_write bytes
      then (after_write c, sent bytes ∷ [])
      else close c

  abbrev pub max_send_buffer_size : ℕ
  max_send_buffer_size = 1024 * 16

  -- The buffer's size after `send` has made room for a text of this size.
  unfoldable pub make_room : ℕ → ℕ → ℕ
  make_room buf size = if ltb (buf - 2) size then ((size + 1) / 1024 + 1) * 1024 else buf

  -- `send` of a document, whose answer is whether a number was drawn from the sequence.
  unfoldable pub send : Json → Client → Act
  unfolding send_bytes make_room
  send doc c =
      let bytes = w.write_json doc in
      if ltb max_send_buffer_size (length bytes)
      then close c
      else send_bytes (bytes ++ 10 ∷ [])
          (record c { send_buf = make_room c.send_buf (length bytes) })

  -- `send` with a callback.
  unfoldable pub send_callback : Json → ℕ → Client → Act
  unfolding send
  send_callback doc token c = send doc (record c {
    callbacks = insert c.sequence (record { callback = token; ts = w.now }) c.callbacks;
  })

  -- Calls of a Socks5, in their order.
  unfoldable pub perform : List Socks.Effect → Client → Act
  unfolding write
  perform [] c = (c, [])
  perform (Socks.write bytes ∷ es) c = write bytes c then perform es
  perform (Socks.close ∷ es) c = close c then perform es

  abbrev pub login_params : Client → Json
  login_params c = object (
      member Key.login (to_json c.user) (
        member Key.pass (to_json c.password)
          (member Key.agent (text c.agent) (optional Key.rigid c.rig_id))))

  unfoldable pub login : Client → Act
  unfolding send
  login c = send (create 1 Key.login (w.on_login (login_params c))) (record c { results = [] })

  unfoldable pub handshake : Client → Act
  unfolding perform login
  handshake c = elim c.socks5 [
    | none ↦ login c
    | some s ↦ let (s', es) = Socks.handshake s in perform es (record c { socks5 = some s' })
  ]

  -- `snprintf` writes at most the buffer's size, its last byte a NUL, and answers the length of the whole
  -- text: a longer one is then read past the buffer.
  unfoldable pub ping : Client → Act
  unfolding send_bytes
  ping c =
      let line = ping_text c in
      if ltb (length line) c.send_buf
      then send_bytes line c
      else if length line == c.send_buf
      then send_bytes (take (c.send_buf - 1) line ++ 0 ∷ []) c
      else if not (state_number c.state == 3) || not w.is_writable
      then (c, [])
      else (record c { alive = false }, faulted ∷ [])

  -- The members of a submission after `id`, `job_id`, `nonce` and `result`.
  abbrev pub submit_options : Client → JobResult → Members
  submit_options c r =
      add_members
        (optional Key.sig (elim r.miner_signature [ none ↦ none | some s ↦ some (bin2hex_loop s) ]))
        (add_members
          (optional Key.commitment
            (elim r.commitment [ none ↦ none | some s ↦ some (bin2hex_loop s) ]))
          (if c.extensions.algo && is_valid r.algorithm
            then optional Key.algo (name_of r.algorithm)
            else end))

  -- `StringRef` of a null pointer is an empty text.
  abbrev pub string_ref : Text → Json
  string_ref none = text []
  string_ref (some t) = text t

  unfoldable pub submit_request : Client → JobResult → Json
  submit_request c r = create c.sequence Key.submit (
      object (
        member Key.id (string_ref c.rpc_id) (
          member Key.job_id (string_ref r.job_id) (
            member Key.nonce (text (bin2hex_loop (bytes32 r.nonce)))
              (member Key.result (text (bin2hex_loop r.result)) (submit_options c r))))))

  abbrev pub pending_result : Client → JobResult → SubmitResult
  pending_result c r = record {
    seq = c.sequence;
    diff = r.diff;
    actual_diff = actual_diff r;
    backend = r.backend;
    start = w.now;
    elapsed = 0;
  }

  -- Whether a result is for the session that the client has.
  abbrev pub is_current : Client → JobResult → Bool
  is_current c r =
      text_eq r.client_id c.rpc_id
      && elim c.rpc_id [ none ↦ false | some id ↦ true ]
      && state_number c.state == 3

  unfoldable pub submit : JobResult → Client → Act
  unfolding send submit_request
  submit r c =
      if not (is_current c r)
      then (c, [])
      else if r.diff == 0
      then close c
      else send (submit_request c r)
          (record c { results = put c.sequence (pending_result c r) c.results })
