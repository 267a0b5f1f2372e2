-- ===== src/Net/Client/Tests.antt =====
-- A client at concrete calls.
use rxs_supported.Common.{
  ℕ, ◌+◌, ◌<◌, ◌≤◌, List, [], ◌∷◌, ◌++◌, true, false, none, some, replicate, length-replicate, ◌≡◌,
  ◌≢◌, refl, arith,
}
use rxs_supported.Net.Client.{
  Client, Pool, unconnected, host_lookup, connected, closing, World, resolving, opening, freed,
  told_close, faulted, no_extensions, Act,
}
use rxs_supported.Net.Client.Calls.{
  Call, ask_connect, ask_tick, ask_submit, dns_answer, connect_answer, close_done, data_read, step,
  serve, read, read_lines, parse_all, parse, parse_response, run, tick, dispatch, has_method,
  reconnect_url, ask_disconnect,
}
use rxs_supported.Net.Client.Key
use rxs_supported.Net.Client.Requests.{
  send, submit, after_write, JobResult, submit_request, send_bytes, make_room, ping,
}
use rxs_supported.Net.Client.Responses.{
  choose_algorithm, take_blob, check_target, check_algorithm, take_seed, take_job, is_null,
  handle_response, handle_submit_response, elapsed, accepted, new_job, parse_job,
}
use rxs_supported.Net.Client.Reports.{reports, unanswered}
use rxs_supported.Net.Client.Submissions.{run-Fair, offers}
use rxs_supported.Net.Client.{on_resolved, start_timeout, deadline, ◌then◌}
use rxs_supported.Net.Client.Stopped.{disconnect_during_lookup}
use rxs_supported.Net.Client.Timeouts.{close-reconnect, send_bytes-waits, dispatch-leak, ticks}
use rxs_supported.Net.Client.Buffers.{make_room-Fits, ping_overread}
use rxs_supported.Net.Client.Jobs.{bare, parse_job-Accepted, parse_job-Refused}
use rxs_supported.Net.LineReader as LineReader
use rxs_supported.Net.Url.{new_url, from_text}
use rxs_supported.Common.Maps.{put, lookup, erase}
use rxs_supported.Tools.Cvt.{
  bin2hex_loop, from_hex, hex2bin, hex2bin_loop, hex2bin_end, val, num, num0, alpha, alpha0,
  no_digit,
}
use rxs_supported.Net.Job.{
  set_target, parse_target, raw_target, set_sig_key, set_blob, is_equal, is_equal_blob,
}
use rxs_supported.Tools.Json.{
  get_string, get_value, find_member, int64, get_uint64, Json, null, number, text, array, object,
  nil, item, end, member,
}
use rxs_supported.Crypto.Algorithm.{rx_0, is_valid, name_in}

-- `p:1`.
abbrev pool : Pool
pool = record {
  url = record new_url { host = some (112 ∷ []); port = 1 };
  proxy = record new_url { port = 0 };
  keep_alive = 0;
  nicehash = false;
  self_select = false;
  algorithm = rx_0;
  coin = none;
  user = none;
  password = none;
  rig_id = none;
}

abbrev world : World
world = record {
  now = 1000;
  is_writable = true;
  try_write = λ bytes. true;
  write_json = λ doc. 123 ∷ 125 ∷ [];
  parse_json = λ line. none;
  ip4_addr = λ host. none;
  ip6_addr = λ host. none;
  on_login = λ params. params;
  verify = λ algo. true;
}

abbrev fresh : Client
fresh = record {
  id = 0;
  has_listener = true;
  failures = some 0;
  job = new_job false 0 none;
  pool = pool;
  state = unconnected;
  callbacks = [];
  results = [];
  user = none;
  password = none;
  rig_id = none;
  agent = [];
  retry_pause = 5000;
  sequence = 1;
  reader = LineReader.init;
  socks5 = none;
  extensions = no_extensions;
  dns = false;
  ip = none;
  send_buf = 1024;
  rpc_id = none;
  expire = 0;
  jobs = 0;
  keep_alive = 0;
  socket = none;
  opened = 0;
  alive = true;
}

-- In a session.
abbrev online : Client
online = record fresh {
  state = connected;
  socket = some (record { handle = 0; is_closing = false });
  opened = 1;
  rpc_id = some (49 ∷ []);
  sequence = 5;
}

abbrev connection : List (World × Call)
connection =
    (world, ask_connect)
    ∷ (world, dns_answer false false (49 ∷ []))
    ∷ (world, connect_answer true)
    ∷ (world, data_read none)
    ∷ (world, close_done)
    ∷ (world, ask_tick 7000)
    ∷ []

abbrev ended : List (World × Call)
ended = (world, close_done) ∷ (world, ask_tick 99999) ∷ []

abbrev looking_up : Client
looking_up = record fresh { state = host_lookup; dns = true }

disconnect_during_lookup_example :
    (run ((world, ask_disconnect) ∷ (world, dns_answer false false (49 ∷ [])) ∷ []) looking_up).1
    ≡ opening 0 1 ∷ []
disconnect_during_lookup_example =
    disconnect_during_lookup world world false (49 ∷ []) looking_up refl refl refl refl

abbrev shutting : Client
shutting = record online {
  state = closing;
  socket = some (record { handle = 0; is_closing = true });
}

close-reconnect_example :
    ((step world close_done shutting).1 ≡ freed 0 ∷ told_close (some 1) ∷ [])
    × (6000 < 6001
        → (step world (ask_tick 6001) (step world close_done shutting).0).0.state ≡ host_lookup)
    × (6001 ≤ 6000
        → step world (ask_tick 6001) (step world close_done shutting).0
          ≡ ((step world close_done shutting).0, []))
close-reconnect_example =
    close-reconnect world world 6001 0 (record { handle = 0; is_closing = true }) shutting refl refl
      refl refl refl (omega arith) (omega arith)

send_bytes-waits_example :
    ((send_bytes world (1 ∷ []) online).0.sequence ≡ 6)
    × (run (ticks ((world, 1000000) ∷ [])) (send_bytes world (1 ∷ []) online).0
        ≡ ((send_bytes world (1 ∷ []) online).0, []))
send_bytes-waits_example =
    send_bytes-waits world (1 ∷ []) ((world, 1000000) ∷ []) online refl refl refl refl refl refl

-- A result for the session, and a pool that accepts what was sent fifth.
abbrev result : JobResult
result = record {
  algorithm = rx_0;
  client_id = some (49 ∷ []);
  job_id = some (50 ∷ []);
  backend = 0;
  nonce = 7;
  diff = 10;
  result = [];
  miner_signature = none;
  commitment = none;
}

abbrev accepting : World
accepting = record world {
  parse_json = λ line.
      some (
        object
          (member Key.id (number 5) (member Key.result (object (member Key.id null end)) end)));
}

-- A line of 22 bytes.
abbrev line : List ℕ
line =
    123 ∷ 0 ∷ 0 ∷ 0 ∷ 0 ∷ 0 ∷ 0 ∷ 0 ∷ 0 ∷ 0 ∷ 0 ∷ 0 ∷ 0 ∷ 0 ∷ 0 ∷ 0 ∷ 0 ∷ 0 ∷ 0 ∷ 0 ∷ 0 ∷ 0 ∷ 10
    ∷ []

abbrev exchange : List (World × Call)
exchange =
    (world, ask_submit result)
    ∷ (accepting, data_read (some line))
    ∷ (accepting, data_read (some line))
    ∷ []

reports-exchange : reports 5 (run exchange online).1 ≡ 1
unfolding run step serve submit submit_request send send_bytes make_room after_write start_timeout
    deadline ◌then◌ put bin2hex_loop read read_lines parse_all parse dispatch parse_response
    handle_response handle_submit_response lookup erase LineReader.parse LineReader.getline
    LineReader.memchr LineReader.end_line LineReader.end_chunk LineReader.add LineReader.reset
    get_string get_value find_member int64 elapsed
reports-exchange = refl

run-Fair_example :
    reports 5 (run exchange online).1 + unanswered 5 (run exchange online).0
    ≤ unanswered 5 online + offers 5 exchange online
run-Fair_example = run-Fair 5 exchange online

-- `["h", "1"]`.
abbrev moved : Json
moved = object (
    member Key.method (text Key.client_reconnect)
      (member Key.params (array (item (text (104 ∷ [])) (item (text (49 ∷ [])) nil))) end))

moved-url : reconnect_url (get_value moved Key.params) ≡ some (104 ∷ 58 ∷ 49 ∷ [])
unfolding reconnect_url get_value find_member
moved-url = refl

moved-method : has_method world moved Key.client_reconnect ≡ true
unfolding get_string find_member
moved-method = refl

abbrev resolved : Act
resolved =
    on_resolved 7000 false false (49 ∷ []) (tick world 7000 (dispatch world moved online).0).0

dispatch-leak_example :
    (dispatch world moved online).1
      ++ (tick world 7000 (dispatch world moved online).0).1
      ++ resolved.1
    ≡ told_close (some 1)
      ∷ resolving (from_text (104 ∷ 58 ∷ 49 ∷ [])).host
      ∷ opening 1 (from_text (104 ∷ 58 ∷ 49 ∷ [])).port
      ∷ []
dispatch-leak_example =
    dispatch-leak world world (record world { now = 7000 }) 7000 0
      (record { handle = 0; is_closing = false }) moved (104 ∷ 58 ∷ 49 ∷ []) (49 ∷ []) online
      moved-method moved-url refl refl refl refl refl refl (omega arith) (omega arith) (omega arith)

make_room-Fits_example :
    (16384 + 2 ≤ make_room world 1024 16384)
    × (1024 ≤ make_room world 1024 16384)
    × (make_room world 1024 16384 ≤ 17408)
make_room-Fits_example = make_room-Fits world 1024 16384 (omega arith) (omega arith) (omega arith)

abbrev long_id : List ℕ
long_id = replicate 1000 97

ping_overread_example : (ping world (record online { rpc_id = some long_id })).1 ≡ faulted ∷ []
ping_overread_example =
    ping_overread world long_id (record online { rpc_id = some long_id }) refl refl refl
      (omega (arith, length-replicate {A = ℕ} 1000 97))

-- With a target, and what stands in for a blob.
abbrev selecting : Client
selecting = record online { pool = record pool { self_select = true } }

abbrev params : Json
params = object (
    member Key.job_id (text (50 ∷ [])) (
      member Key.extra_nonce (text (51 ∷ [])) (
        member Key.pool_wallet (text (52 ∷ []))
          (member Key.target (text (98 ∷ 56 ∷ 56 ∷ 100 ∷ 48 ∷ 54 ∷ 48 ∷ 48 ∷ [])) end))))

params-accepted : (parse_job world params selecting).0 ≡ accepted
unfolding parse_job get_string find_member choose_algorithm take_blob check_target set_target
    parse_target raw_target from_hex hex2bin hex2bin_loop hex2bin_end val num num0 alpha alpha0
    no_digit check_algorithm take_seed set_sig_key name_in take_job is_equal is_equal_blob
    get_uint64
params-accepted = refl

parse_job-Accepted_example :
    let j = (parse_job world params selecting).1.0.job in
    (is_null j.id ≡ false)
    × (j.id ≡ get_string params Key.job_id)
    × (j.client_id ≡ some (49 ∷ []))
    × (0 < j.target)
    × (is_valid j.algorithm ≡ true)
    × (world.verify j.algorithm ≡ true)
parse_job-Accepted_example = parse_job-Accepted world params selecting params-accepted

-- Without its blob.
params-refused : (parse_job world params online).0 ≢ accepted
unfolding parse_job get_string find_member choose_algorithm take_blob set_blob
params-refused e = absurd (ground arith)

parse_job-Refused_example :
    let c' = (parse_job world params online).1.0 in
    (bare world c'.job ≡ bare world online.job) × (c'.jobs ≡ 0)
parse_job-Refused_example = parse_job-Refused world params online params-refused
