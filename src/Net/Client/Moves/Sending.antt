-- ===== src/Net/Client/Moves/Sending.antt =====
-- Client.cpp: what a client does when it sends, as the same relation.
use rxs_supported.Common.{
  ℕ, ◌-◌, List, [], ◌∷◌, ◌++◌, not, ◌||◌, ltb, ◌==◌, some, length, take, refl, arith, if_elim,
  option_elim,
}
use rxs_supported.Net.Client.{Client, ◌then◌, World, close, state_number, start_timeout}
use rxs_supported.Net.Client.Moves.{Moves, Alike, still, cleared, shut, both}
use rxs_supported.Net.Client.Requests.{
  write, after_write, send_bytes, make_room, max_send_buffer_size, send, perform, login,
  login_params, create, handshake, ping, ping_text,
}
use rxs_supported.Net.Client.Key
use rxs_supported.Net.Socks5 as Socks
use rxs_supported.Tools.Json.{Json}

module _ (w : World) where
  stay : (c : Client) → Moves w c (c, [])
  stay c = still c c [] (refl, refl, refl, refl) tt

  write-Moves : (bytes : List ℕ) (c : Client) → Moves w c (write w bytes c)
  unfolding write
  write-Moves bytes c =
      if_elim (Moves w c) (w.try_write bytes) (still c c _ (refl, refl, refl, refl) (tt, tt))
        (shut c)

  after_write-Alike : (c : Client) → Alike c (after_write w c)
  unfolding after_write start_timeout
  after_write-Alike c = ground arith

  send_bytes-Moves : (bytes : List ℕ) (c : Client) → Moves w c (send_bytes w bytes c)
  unfolding send_bytes
  send_bytes-Moves bytes c =
      if_elim (Moves w c) (not (state_number c.state == 3) || not w.is_writable) (stay c) (
        if_elim (Moves w c) (w.try_write bytes)
          (still c (after_write w c) _ (after_write-Alike c) (tt, tt)) (shut c))

  pub send-Moves : (doc : Json) (c : Client) → Moves w c (send w doc c)
  unfolding send ◌then◌
  send-Moves doc c =
      let bytes = w.write_json doc in
      let c' = record c { send_buf = make_room w c.send_buf (length bytes) } in
      if_elim (Moves w c) (ltb (max_send_buffer_size w) (length bytes)) (shut c) (
        both c (c', []) (send_bytes w (bytes ++ 10 ∷ []))
          (still c c' [] (refl, refl, refl, refl) tt) (send_bytes-Moves (bytes ++ 10 ∷ []) c'))

  pub perform-Moves : (es : List Socks.Effect) (c : Client) → Moves w c (perform w es c)
  unfolding perform
  perform-Moves [] c = stay c
  perform-Moves (Socks.write bytes ∷ es) c =
      both c (write w bytes c) (perform w es) (write-Moves bytes c)
        (perform-Moves es (write w bytes c).0)
  perform-Moves (Socks.close ∷ es) c =
      both c (close c) (perform w es) (shut c) (perform-Moves es (close c).0)

  pub login-Moves : (c : Client) → Moves w c (login w c)
  unfolding login ◌then◌
  login-Moves c =
      let doc = create 1 Key.login (w.on_login (login_params w c)) in
      both c (record c { results = [] }, []) (send w doc) (cleared c)
        (send-Moves doc (record c { results = [] }))

  pub handshake-Moves : (c : Client) → Moves w c (handshake w c)
  unfolding handshake ◌then◌
  handshake-Moves c = option_elim (Moves w c) c.socks5 (login-Moves c) (λ s.
      let c' = record c { socks5 = some (Socks.handshake s).0 } in
      let es = (Socks.handshake s).1 in
      both c (c', []) (perform w es) (still c c' [] (refl, refl, refl, refl) tt)
        (perform-Moves es c'))

  pub ping-Moves : (c : Client) → Moves w c (ping w c)
  unfolding ping
  ping-Moves c =
      let line = ping_text c in
      if_elim (Moves w c) (ltb (length line) c.send_buf) (send_bytes-Moves line c) (
        if_elim (Moves w c) (length line == c.send_buf)
          (send_bytes-Moves (take (c.send_buf - 1) line ++ 0 ∷ []) c)
          (if_elim (Moves w c) (not (state_number c.state == 3) || not w.is_writable) (stay c)
            (still c _ _ (refl, refl, refl, refl) (tt, tt))))
