-- ===== src/Net/Client/Buffers.antt =====
-- Client.cpp: the buffer that a client sends from.
use native.Mathlib.Nat.{div-add-mod', mod-lt}
use rxs_supported.Common.{
  ℕ, zero, suc, ◌+◌, ◌/◌, ◌%◌, ◌<◌, ◌≤◌, List, [], ◌∷◌, ◌++◌, true, some, length, length-append,
  ◌≡◌, refl, arith,
}
use rxs_supported.Common.Decimal.{decimal}
use rxs_supported.Net.Client.{Client, connected, faulted, World}
use rxs_supported.Net.Client.Requests.{
  make_room, max_send_buffer_size, ping, ping_text, ping_head, ping_middle, ping_tail,
}

-- For a text that `send` does not refuse, the buffer has room for its newline and its NUL, and is never
-- larger than 17 KiB if it was not.
pub make_room-Fits :
    (w : World) (buf size : ℕ)
    → 1024 ≤ buf
    → buf ≤ 17408
    → size ≤ max_send_buffer_size w
    → (size + 2 ≤ make_room w buf size)
      × (buf ≤ make_room w buf size)
      × (make_room w buf size ≤ 17408)
unfolding make_room
make_room-Fits w buf size h b k =
    ground (arith, div-add-mod' (size + 1) 1024, mod-lt (size + 1) {m = 1024} (omega arith))

decimal-Longer : (fuel n : ℕ) (acc : List ℕ) → length acc ≤ length (decimal fuel n acc)
unfolding decimal
decimal-Longer zero n acc = omega arith
decimal-Longer (suc fuel) n acc =
    ground (arith, decimal-Longer fuel (n / 10) ((b'0' + n % 10) ∷ acc))

decimal-Some : (fuel n : ℕ) → 1 ≤ length (decimal (suc fuel) n [])
unfolding decimal
decimal-Some fuel n = ground (arith, decimal-Longer fuel (n / 10) ((b'0' + n % 10) ∷ []))

five_lengths :
    (a d b t e : List ℕ)
    → length (a ++ d ++ b ++ t ++ e) ≡ length a + length d + length b + length t + length e
five_lengths a d b t e = omega (
  arith,
  length-append (a ++ d ++ b ++ t) e,
  length-append (a ++ d ++ b) t,
  length-append (a ++ d) b,
  length-append a d,
)

frame_lem : length ping_head + length ping_middle + length ping_tail ≡ 65
unfolding ping_head ping_middle ping_tail
frame_lem = refl

ping_text-Longer :
    (id : List ℕ) (c : Client) → c.rpc_id ≡ some id → length id + 66 ≤ length (ping_text c)
unfolding ping_text
ping_text-Longer id c r =
    let digits = decimal 20 c.sequence [] in
    rw (ping_text, r)
      (omega (
        arith,
        frame_lem,
        five_lengths ping_head digits ping_middle id ping_tail,
        decimal-Some 19 c.sequence,
      ))

-- A session id of the pool's that, with the 66 bytes or more around it, is longer than the buffer makes
-- the client's next `ping` read past the buffer.
pub ping_overread :
    (w : World) (id : List ℕ) (c : Client)
    → c.state ≡ connected
    → w.is_writable ≡ true
    → c.rpc_id ≡ some id
    → c.send_buf < length id + 66
    → (ping w c).1 ≡ faulted ∷ []
unfolding ping
ping_overread w id c e x r h = ground (arith, ping_text-Longer id c r, e, x, h)
