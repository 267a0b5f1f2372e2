-- ===== src/Net/Client/Calls.antt =====
-- Client.cpp: lines from the pool, the callbacks of libuv, and all calls as one step.
use rxs_supported.Common.{
  ℕ, ◌+◌, List, [], ◌∷◌, ◌++◌, Bool, true, false, not, ◌&&◌, ◌||◌, ltb, ◌==◌, if◌then◌else◌, Option,
  none, some, length, drop,
}
use rxs_supported.Net.Client.{
  Client, Pool, Effect, told_login, told_job, reading, faulted, Act, ◌then◌, World, state_number,
  connected, set_state, close, disconnect, delete_later, reconnect, on_close, connect, on_resolved,
}
use rxs_supported.Net.Client.Key
use rxs_supported.Net.Client.Requests.{JobResult, submit, ping, send_callback, handshake, perform}
use rxs_supported.Net.Client.Responses.{
  parse_job, parse_login, handle_response, handle_submit_response, is_critical_error, message_of,
  Verdict, accepted, fault, refused,
}
use rxs_supported.Net.Job.{Text, is_valid}
use rxs_supported.Net.LineReader as LineReader
use rxs_supported.Net.Socks5 as Socks
use rxs_supported.Net.Url.{Url, from_text, first, is_valid as is_valid_url}
use rxs_supported.Tools.Json.{
  Json, text, array, nil, item, Integer, exactly, below, str_eq, is_object, get_value, get_string,
  int64,
}

abbrev pub is_one : Integer → Bool
is_one (exactly n) = n == 1
is_one (below n) = false

-- `client.reconnect`: its new address; `none` is an invalid notification.
unfoldable pub reconnect_url : Json → Option (List ℕ)
reconnect_url (array (item (text host) (item (text port) nil))) = some (host ++ b':' ∷ port)
reconnect_url _ = none

unfoldable pub set_pool_url : List ℕ → Client → Client
set_pool_url url c = record c { pool = record (c.pool) { url = from_text url } }

module _ (w : World) where
  -- What `parseNotification` does after `parseJob`; after a fault there is nothing more.
  abbrev pub after_job : Verdict × Act → Act
  after_job (accepted, (c, es)) = (c, es ++ told_job c.job ∷ [])
  after_job (fault, (c, es)) = (c, es)
  after_job (refused code, (c, es)) = (c, es) then close

  unfoldable pub parse_notification : List ℕ → Json → Client → Act
  unfolding parse_job
  parse_notification method params c =
      if str_eq method Key.job then after_job (parse_job w params c) else (c, [])

  -- An error's message, which may be null: with it the submission is answered, and then the connection may
  -- be closed.
  unfoldable pub on_error : Integer → Option Text → Client → Act
  on_error id none c = (record c { alive = false }, faulted ∷ [])
  on_error id (some message) c =
      let act = handle_submit_response w id message c in
      if c.id == 1 || is_critical_error message then act then close else act

  -- What `parseResponse` does after `parseLogin`.
  abbrev pub after_login : Verdict × Act → Act
  after_login (accepted, (c, es)) =
      let es' = es ++ told_login ∷ [] in
      let c' = record c { failures = some 0 } in
      if is_valid c.job then (c', es' ++ told_job c.job ∷ []) else (c', es')
  after_login (fault, (c, es)) = (c, es)
  after_login (refused code, (c, es)) = (c, es) then close

  unfoldable pub parse_response : Integer → Json → Json → Client → Act
  unfolding on_error parse_login
  parse_response id result error c = elim (handle_response w id error c) [
    | some act ↦ act
    | none ↦
        if is_object error
        then on_error id (message_of error) c
        else if not (is_object result)
        then (c, [])
        else if is_one id
        then after_login (parse_login w result c)
        else handle_submit_response w id none c
  ]

  abbrev pub has_method : Json → List ℕ → Bool
  has_method doc name = elim (get_string doc Key.method) [ none ↦ false | some m ↦ str_eq m name ]

  -- What `parse` does with a document that is an object.
  unfoldable pub dispatch : Json → Client → Act
  unfolding parse_response parse_notification
  dispatch doc c =
      if has_method doc Key.client_reconnect
      then elim (reconnect_url (get_value doc Key.params)) [
        | none ↦ (c, [])
        | some url ↦ reconnect w.now (set_pool_url url c)
      ]
      else elim (int64 (get_value doc Key.id)) [
        | some id ↦ parse_response id (get_value doc Key.result) (get_value doc Key.error) c
        | none ↦ elim (get_string doc Key.method) [
          | none ↦ (c, [])
          | some method ↦
              if is_object (get_value doc Key.error)
              then (c, [])
              else parse_notification method (get_value doc Key.params) c
        ]
      ]

  -- `onLine`.
  unfoldable pub parse : List ℕ → Client → Act
  unfolding dispatch
  parse line c =
      if ltb (length line) 22 || not (first line == b'{')
      then (c, [])
      else elim (w.parse_json line) [
        | none ↦ (c, [])
        | some doc ↦ if is_object doc then dispatch doc c else (c, [])
      ]

  -- The lines of a buffer, one after the other, until a fault ends the program.
  unfoldable pub parse_all : List (List ℕ) → Client → Act
  unfolding parse
  parse_all [] c = (c, [])
  parse_all (line ∷ lines) c = if c.alive then parse line c then parse_all lines else (c, [])

  -- `read` in a session without a proxy.
  unfoldable pub read_lines : List ℕ → Client → Act
  unfolding parse_all
  read_lines bytes c =
      let reader = LineReader.parse c.reader bytes in
      parse_all (drop (length c.reader.lines) reader.lines) (record c { reader = reader })

  -- What `read` does after the proxy's reply was read; the object is deleted once it is ready.
  unfoldable pub read_reply : Option (Bool × Socks.Socks5 × List Socks.Effect) → Client → Act
  read_reply none c = (record c { alive = false }, faulted ∷ [])
  read_reply (some (rc, s, es)) c =
      let act = perform w es (record c { socks5 = some s }) in
      if Socks.is_ready s then act then (λ c'. handshake w (record c' { socks5 = none })) else act

  -- The text of a host, which is empty where it is null.
  abbrev pub host_text : Text → List ℕ
  host_text none = []
  host_text (some host) = host

  -- `none` is an error of libuv.
  unfoldable pub read : Option (List ℕ) → Client → Act
  unfolding read_lines read_reply
  read none c = close c
  read (some bytes) c = if not c.has_listener then reconnect w.now c else elim c.socks5 [
    | none ↦ read_lines bytes c
    | some s ↦
        read_reply
          (Socks.read w.ip4_addr w.ip6_addr (host_text c.pool.url.host) c.pool.url.port bytes s) c
  ]

  abbrev pub handle_of : Client → List Effect
  handle_of c = elim c.socket [ none ↦ [] | some s ↦ reading s.handle ∷ [] ]

  -- The static `onConnect`, with a status that is not below zero, or is.
  unfoldable pub on_connect : Bool → Client → Act
  on_connect true c =
      if state_number c.state == 3
      then (c, [])
      else (set_state w.now connected c, handle_of c) then handshake w
  on_connect false c = if state_number c.state == 2 then close c else (c, [])

  -- `now` is the argument of the call.
  unfoldable pub tick : ℕ → Client → Act
  tick now c =
      if state_number c.state == 3
      then (if not (c.expire == 0) && ltb c.expire now
          then close c
          else if not (c.keep_alive == 0) && ltb c.keep_alive now
          then ping w c
          else (c, []))
      else if state_number c.state == 5 && not (c.expire == 0) && ltb c.expire now
      then connect w.now c
      else if state_number c.state == 2 && not (c.expire == 0) && ltb c.expire now
      then close c
      else (c, [])

unfoldable pub set_pool : Pool → Client → Client
set_pool p c =
    if is_valid_url p.url
    then record c { pool = p; user = p.user; password = p.password; rig_id = p.rig_id }
    else c

-- Calls of IClient, then of libuv and the resolver; `sent_elsewhere` is a call of another client that
-- draws from the shared sequence.
pub data Call : Type 0 where
  ask_connect ask_disconnect ask_delete : Call
  ask_connect_pool : Pool → Call
  ask_tick : (now : ℕ) → Call
  ask_submit : JobResult → Call
  ask_send : Json → (callback : ℕ) → Call
  set_algo : ℕ → Call
  set_proxy : Url → Call
  set_retry_pause : ℕ → Call
  sent_elsewhere : ℕ → Call
  dns_answer : (failed empty : Bool) (ip : List ℕ) → Call
  connect_answer : (ok : Bool) → Call
  close_done : Call
  data_read : Option (List ℕ) → Call

-- A call of a client that is there.
unfoldable pub serve : World → Call → Client → Act
unfolding set_pool
serve w ask_connect c = connect w.now c
serve w ask_disconnect c = disconnect c
serve w ask_delete c = delete_later c
serve w (ask_connect_pool p) c = connect w.now (set_pool p c)
serve w (ask_tick now) c = tick w now c
serve w (ask_submit r) c = submit w r c
serve w (ask_send doc callback) c = send_callback w doc callback c
serve w (set_algo algo) c = (record c { pool = record (c.pool) { algorithm = algo } }, [])
serve w (set_proxy proxy) c = (record c { pool = record (c.pool) { proxy = proxy } }, [])
serve w (set_retry_pause ms) c = (record c { retry_pause = ms }, [])
serve w (sent_elsewhere n) c = (record c { sequence = c.sequence + n }, [])
serve w (dns_answer failed empty ip) c = on_resolved w.now failed empty ip c
serve w (connect_answer ok) c = on_connect w ok c
serve w close_done c = on_close w.now c
serve w (data_read bytes) c = read w bytes c

unfoldable pub step : World → Call → Client → Act
unfolding serve
step w call c = if c.alive then serve w call c else (c, [])

unfoldable pub run : List (World × Call) → Client → Act
unfolding step
run [] c = (c, [])
run ((w, call) ∷ calls) c = step w call c then run calls
