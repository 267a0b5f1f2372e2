-- ===== src/Net/Client/Submissions.antt =====
-- Client.cpp and BaseClient.cpp: what becomes of the results that are submitted.
use rxs_supported.Common.{
  ℕ, ◌+◌, ◌≤◌, List, [], ◌∷◌, Bool, true, false, not, ◌&&◌, ◌==◌, if◌then◌else◌, Option, none, some,
  ◌≡◌, arith, Bool-cases, inl, inr, if_elim, option_elim, drop, length,
}
use rxs_supported.Common.Maps.{put, insert, count-put}
use rxs_supported.Net.Client.{
  Client, Pool, connected, state_number, ◌then◌, World, close, close_socket, set_state, reconnect,
  count_failure, on_close, resolve, connect, connect_to, on_resolved, disconnect, delete_later,
}
use rxs_supported.Net.Client.Calls.{
  Call, ask_connect, ask_disconnect, ask_delete, ask_connect_pool, ask_tick, ask_submit, ask_send,
  set_algo, set_proxy, set_retry_pause, sent_elsewhere, dns_answer, connect_answer, close_done,
  data_read, step, serve, run, tick, read, read_lines, read_reply, host_text, handle_of, on_connect,
  set_pool,
}
use rxs_supported.Net.Client.Requests.{
  JobResult, pending_result, perform, handshake, ping, send, send_callback, submit, submit_request,
  is_current,
}
use rxs_supported.Net.Client.Moves.Sending.{send-Moves, perform-Moves, handshake-Moves, ping-Moves}
use rxs_supported.Net.LineReader as LineReader
use rxs_supported.Net.Socks5 as Socks
use rxs_supported.Tools.Json.{Json}
use rxs_supported.Net.Client.Reports.{
  is_seq, unanswered, reports, reports-append, Fair, close-Fair, then-Fair, Moves-Fair,
  reconnect-Fair, parse_all-Fair,
}

module _ (seq : ℕ) where
  on_close-Fair : (now : ℕ) (c : Client) → Fair seq c (on_close now c)
  unfolding on_close ◌then◌ set_state reconnect count_failure
  on_close-Fair now c = ground arith

  connect-Fair : (now : ℕ) (c : Client) → Fair seq c (connect now c)
  unfolding connect resolve set_state
  connect-Fair now c = ground arith

  on_resolved-Fair :
      (now : ℕ) (failed empty : Bool) (ip : List ℕ) (c : Client)
      → Fair seq c (on_resolved now failed empty ip c)
  unfolding on_resolved connect_to set_state reconnect count_failure
  on_resolved-Fair now failed empty ip c = ground arith

  disconnect-Fair : (c : Client) → Fair seq c (disconnect c)
  unfolding disconnect close close_socket
  disconnect-Fair c = ground arith

  delete_later-Fair : (c : Client) → Fair seq c (delete_later c)
  unfolding delete_later ◌then◌ disconnect close close_socket
  delete_later-Fair c = ground arith

  tick-Fair : (w : World) (now : ℕ) (c : Client) → Fair seq c (tick w now c)
  unfolding tick
  tick-Fair w now c = ground (
    arith,
    Moves-Fair seq w c (ping w c) (ping-Moves w c),
    close-Fair seq c,
    connect-Fair w.now c,
  )

  set_pool-Fair : (p : Pool) (c : Client) → unanswered seq (set_pool p c) ≡ unanswered seq c
  unfolding set_pool
  set_pool-Fair p c = ground arith

  read_reply-Fair :
      (w : World) (reply : Option (Bool × Socks.Socks5 × List Socks.Effect)) (c : Client)
      → Fair seq c (read_reply w reply c)
  unfolding read_reply ◌then◌
  read_reply-Fair w none c = omega arith
  read_reply-Fair w (some (rc, s, es)) c =
      let act = perform w es (record c { socks5 = some s }) in
      let h = Moves-Fair seq w _ act (perform-Moves w es (record c { socks5 = some s })) in
      let k = λ (a : Client). handshake w (record a { socks5 = none }) in
      let c' = record (act.0) { socks5 = none } in
      if_elim (Fair seq c) (Socks.is_ready s)
        (then-Fair seq c act k h (Moves-Fair seq w c' (handshake w c') (handshake-Moves w c'))) h

  read-Fair : (w : World) (bytes : Option (List ℕ)) (c : Client) → Fair seq c (read w bytes c)
  unfolding read read_lines
  read-Fair w none c = close-Fair seq c
  read-Fair w (some bytes) c =
      let r = LineReader.parse c.reader bytes in
      if_elim (Fair seq c) (not c.has_listener) (reconnect-Fair seq w.now c) (
        option_elim (Fair seq c) c.socks5
          (parse_all-Fair seq w (drop (length c.reader.lines) r.lines) (record c { reader = r }))
          (λ k.
            let host = host_text w c.pool.url.host in
            let reply = Socks.read w.ip4_addr w.ip6_addr host c.pool.url.port bytes k in
            read_reply-Fair w reply c))

  opened : (w : World) (c : Client) → Fair seq c (set_state w.now connected c, handle_of w c)
  unfolding set_state
  opened w c = ground arith

  on_connect-Fair : (w : World) (ok : Bool) (c : Client) → Fair seq c (on_connect w ok c)
  unfolding on_connect
  on_connect-Fair w true c = elim (Bool-cases (state_number c.state == 3)) [
    | inl e ↦ rw (on_connect, e) (omega arith)
    | inr e ↦
        rw (on_connect, e)
          (then-Fair seq c (set_state w.now connected c, handle_of w c) (handshake w) (opened w c)
            (Moves-Fair seq w (set_state w.now connected c) _
              (handshake-Moves w (set_state w.now connected c))))
  ]
  on_connect-Fair w false c =
      if_elim (Fair seq c) (state_number c.state == 2) (close-Fair seq c) (omega arith)

  -- A call that submits a result under this number: for the session that there is, with a difficulty.
  abbrev pub offers_one : World → Call → Client → ℕ
  offers_one w (ask_submit r) c =
      if c.sequence == seq && is_current w c r && not (r.diff == 0) then 1 else 0
  offers_one w _ c = 0

  submit-Fair :
      (w : World) (r : JobResult) (c : Client)
      → reports seq (submit w r c).1 + unanswered seq (submit w r c).0
        ≤ unanswered seq c + offers_one w (ask_submit r) c
  unfolding submit
  submit-Fair w r c =
      let m = put c.sequence (pending_result w c r) c.results in
      let c' = record c { results = m } in
      ground (
        arith,
        Moves-Fair seq w c' (send w (submit_request w c r) c')
            (send-Moves w (submit_request w c r) c'),
        count-put (is_seq seq) c.sequence (pending_result w c r) c.results,
        close-Fair seq c,
      )

  sent_with_callback :
      (w : World) (doc : Json) (callback : ℕ) (c : Client)
      → Fair seq c (send_callback w doc callback c)
  unfolding send_callback
  sent_with_callback w doc callback c =
      let m = insert c.sequence (record { callback = callback; ts = w.now }) c.callbacks in
      let c' = record c { callbacks = m } in
      Moves-Fair seq w c' (send w doc c') (send-Moves w doc c')

  serve-Fair :
      (w : World) (call : Call) (c : Client)
      → reports seq (serve w call c).1 + unanswered seq (serve w call c).0
        ≤ unanswered seq c + offers_one w call c
  unfolding serve send_callback
  serve-Fair w ask_connect c = omega (arith, connect-Fair w.now c)
  serve-Fair w ask_disconnect c = omega (arith, disconnect-Fair c)
  serve-Fair w ask_delete c = omega (arith, delete_later-Fair c)
  serve-Fair w (ask_connect_pool pool) c =
      omega (arith, connect-Fair w.now (set_pool pool c), set_pool-Fair pool c)
  serve-Fair w (ask_tick now) c = omega (arith, tick-Fair w now c)
  serve-Fair w (ask_submit r) c = submit-Fair w r c
  serve-Fair w (ask_send doc callback) c = omega (arith, sent_with_callback w doc callback c)
  serve-Fair w (set_algo algo) c = omega arith
  serve-Fair w (set_proxy proxy) c = omega arith
  serve-Fair w (set_retry_pause ms) c = omega arith
  serve-Fair w (sent_elsewhere n) c = omega arith
  serve-Fair w (dns_answer failed empty ip) c =
      omega (arith, on_resolved-Fair w.now failed empty ip c)
  serve-Fair w (connect_answer ok) c = omega (arith, on_connect-Fair w ok c)
  serve-Fair w close_done c = omega (arith, on_close-Fair w.now c)
  serve-Fair w (data_read bytes) c = omega (arith, read-Fair w bytes c)

  step-Fair :
      (w : World) (call : Call) (c : Client)
      → reports seq (step w call c).1 + unanswered seq (step w call c).0
        ≤ unanswered seq c + offers_one w call c
  unfolding step
  step-Fair w call c = ground (arith, serve-Fair w call c)

  -- How often a history submits a result under this number.
  unfoldable pub offers : List (World × Call) → Client → ℕ
  offers [] c = 0
  offers ((w, call) ∷ calls) c = offers_one w call c + offers calls (step w call c).0

  -- Over any history of calls whatever, the listener is told of the results submitted under a number at most as
  -- often as results of the session that there was, with a difficulty, were submitted under it, with those that
  -- were kept at its start; what is still kept at its end counts as well.
  pub run-Fair :
      (calls : List (World × Call)) (c : Client)
      → reports seq (run calls c).1 + unanswered seq (run calls c).0
        ≤ unanswered seq c + offers calls c
  unfolding run ◌then◌ offers
  run-Fair [] c = omega arith
  run-Fair ((w, call) ∷ calls) c =
      let c' = (step w call c).0 in
      omega (
        arith,
        reports-append seq (step w call c).1 (run calls c').1,
        step-Fair w call c,
        run-Fair calls c',
      )
