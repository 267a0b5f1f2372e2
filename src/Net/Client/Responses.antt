-- ===== src/Net/Client/Responses.antt =====
-- Client.cpp and BaseClient.cpp: what a client does with a line from its pool.
use rxs_supported.Common.{
  ℕ, ◌+◌, ◌-◌, ◌%◌, ◌^◌, List, [], ◌∷◌, Bool, true, false, not, ◌&&◌, ◌||◌, leb, ◌==◌,
  if◌then◌else◌, Option, none, some, replicate,
}
use rxs_supported.Common.Maps.{lookup, erase}
use rxs_supported.Net.Client.{
  Client, Pool, told_result, asked_verify, answered, faulted, Act, ◌then◌, World, no_extensions,
  has_nicehash, start_timeout, close,
}
use rxs_supported.Net.Client.Key
use rxs_supported.Net.Job.{
  Job, Text, invalid, family, random_x, set_blob, set_seed_hash, set_target, set_sig_key, is_equal,
  move,
}
use rxs_supported.Net.Job as Job
use rxs_supported.Net.Url.{starts_with}
use rxs_supported.Tools.Json.{
  Json, text, array, Items, nil, item, Integer, exactly, below, str_eq, is_object, find, get_string,
  get_object, get_uint64, object,
}
use rxs_supported.Crypto.Algorithm.{parse, is_valid}

-- Of two unsigned 64-bit clock readings.
unfoldable pub elapsed : ℕ → ℕ → ℕ
elapsed now start = (now + 2 ^ 64 - start) % 2 ^ 64

-- One name of `parseExtensions`.
unfoldable pub extend : ℕ → Client → List ℕ → Client
extend now c name =
    if str_eq name Key.algo
    then record c { extensions = record (c.extensions) { algo = true } }
    else if str_eq name Key.nicehash
    then record c { extensions = record (c.extensions) { nicehash = true } }
    else if str_eq name Key.connect
    then record c { extensions = record (c.extensions) { connect = true } }
    else if str_eq name Key.keepalive
    then start_timeout now (record c { extensions = record (c.extensions) { keepalive = true } })
    else c

abbrev pub extend_by : ℕ → Client → Json → Client
extend_by now c (text name) = extend now c name
extend_by now c _ = c

unfoldable pub extend_all : ℕ → Items → Client → Client
extend_all now nil c = c
extend_all now (item ext exts) c = extend_all now exts (extend_by now c ext)

abbrev pub extensions_of : Json → Items
extensions_of (array items) = items
extensions_of _ = nil

unfoldable pub parse_extensions : ℕ → Json → Client → Client
unfolding extend_all
parse_extensions now result c =
    let c' = record c { extensions = no_extensions } in
    elim (find result Key.extensions) [
      | none ↦ c'
      | some exts ↦ extend_all now (extensions_of exts) c'
    ]

-- The answer of `parseJob` or `parseLogin`, with the code where one is set; `fault` is a division by zero.
pub data Verdict : Type 0 where
  accepted fault : Verdict
  refused : (code : Option ℕ) → Verdict

-- A job as the constructor leaves it.
abbrev pub new_job : Bool → ℕ → Text → Job
new_job nicehash algorithm client_id = record {
  algorithm = algorithm;
  nicehash = nicehash;
  seed = [];
  size = 0;
  client_id = client_id;
  extra_nonce = none;
  id = none;
  pool_wallet = none;
  backend = 0;
  diff = 0;
  height = 0;
  target = 0;
  blob = replicate Job.max_blob_size 0;
  index = 0;
  eph_public_key = replicate 32 0;
  eph_secret_key = replicate 32 0;
  has_miner_signature = false;
}

-- The id that a name is parsed to.
abbrev pub named : List ℕ → ℕ
named algo = elim (parse algo) [ none ↦ invalid | some id ↦ id ]

unfoldable pub choose_algorithm : Pool → Option (List ℕ) → Job → Job
choose_algorithm p algo j = elim algo [
  | some name ↦ record j { algorithm = named name }
  | none ↦ elim p.coin [ none ↦ j | some id ↦ record j { algorithm = id } ]
]

abbrev pub is_null : Text → Bool
is_null none = true
is_null (some t) = false

-- The blob, or what stands in for it where the miner selects its own transactions.
unfoldable pub take_blob : Pool → Json → Job → Bool × Job
take_blob p params j =
    if p.self_select
    then (let nonce = get_string params Key.extra_nonce in
        let wallet = get_string params Key.pool_wallet in
        (
          not (is_null nonce || is_null wallet),
          record j { extra_nonce = nonce; pool_wallet = wallet },
        ))
    else set_blob (get_string params Key.blob) j

unfoldable pub take_seed : Pool → Json → Job → Bool × Job
take_seed p params j =
    if not p.self_select && family j.algorithm == random_x
    then set_seed_hash (get_string params Key.seed_hash) j
    else (true, j)

-- `parseJob` from the comparison on.
unfoldable pub take_job : Job → Client → Verdict × Act
take_job j c =
    let c' = record c { job = record (c.job) { client_id = c.rpc_id } } in
    if not (is_equal c'.job j)
    then (accepted, (record c' { jobs = c.jobs + 1; job = (move c'.job j).0 }, []))
    else if c.jobs == 0
    then (refused none, (c', []))
    else (refused none, close c')

module _ (w : World) where
  -- `parseJob` from the check of the algorithm on.
  unfoldable pub check_algorithm : Json → Job → Client → Verdict × Act
  unfolding take_seed
  check_algorithm params j c =
      if not (is_valid j.algorithm)
      then (refused (some 6), (c, []))
      else if not (w.verify j.algorithm)
      then (refused (some 6), (c, asked_verify j.algorithm ∷ []))
      else (let (ok, j') = take_seed c.pool params j in
          if not ok
          then (refused (some 7), (c, asked_verify j.algorithm ∷ []))
          else (let (v, (c', es)) = take_job (set_sig_key (get_string params Key.sig_key) j') c in
              (v, (c', asked_verify j.algorithm ∷ es))))

  -- `parseJob` from the target on.
  unfoldable pub check_target : Json → Job → Client → Verdict × Act
  unfolding check_algorithm
  check_target params j c = elim (set_target (get_string params Key.target) j) [
    | none ↦ (fault, (record c { alive = false }, faulted ∷ []))
    | some (ok, j') ↦
        if not ok
        then (refused (some 5), (c, []))
        else check_algorithm params (record j' { height = get_uint64 params Key.height 0 }) c
  ]

  unfoldable pub parse_job : Json → Client → Verdict × Act
  unfolding check_target
  parse_job params c =
      if not (is_object params)
      then (refused (some 2), (c, []))
      else let id = get_string params Key.job_id in
        if is_null id
        then (refused (some 3), (c, []))
        else (let j = record (new_job (has_nicehash c) c.pool.algorithm c.rpc_id) { id = id } in
            let (ok, j') =
              take_blob c.pool params (choose_algorithm c.pool (get_string params Key.algo) j) in
            if not ok then (refused (some 4), (c, [])) else check_target params j' c)

  -- What `parseLogin` does after `parseJob`.
  abbrev pub reset_jobs : Verdict × Act → Verdict × Act
  reset_jobs (v, (c, es)) = (v, (record c { jobs = 0 }, es))

  unfoldable pub parse_login : Json → Client → Verdict × Act
  unfolding parse_job parse_extensions
  parse_login result c =
      let id = get_string result Key.id in
      let c' = record c { rpc_id = id } in
      if is_null id
      then (refused (some 1), (c', []))
      else reset_jobs (parse_job (get_object result Key.job) (parse_extensions w.now result c'))

  -- The test of `handleResponse` and its call; `none` where it answers false.
  unfoldable pub handle_response : Integer → Json → Client → Option Act
  handle_response (below n) error c = none
  handle_response (exactly n) error c = if leb n 1 then none else elim (lookup n c.callbacks) [
    | none ↦ none
    | some s ↦ some (
      record c { callbacks = erase n c.callbacks },
      answered s.callback (not (is_object error)) (elapsed w.now s.ts) ∷ [],
    )
  ]

  unfoldable pub handle_submit_response : Integer → Text → Client → Act
  handle_submit_response (below n) error c = (c, [])
  handle_submit_response (exactly n) error c = elim (lookup n c.results) [
    | none ↦ (c, [])
    | some r ↦ (
      record c { results = erase n c.results },
      told_result (record r { elapsed = elapsed w.now r.start }) error ∷ [],
    )
  ]

unfoldable pub is_critical_error : Text → Bool
is_critical_error none = false
is_critical_error (some message) =
    starts_with Key.unauthenticated message
    || starts_with Key.banned message
    || starts_with Key.currently_banned message
    || starts_with Key.invalid_job message

-- `error["message"].GetString()`, with assertions off: a null text where there is no message, or a value
-- that has no pointer; `none` is the text of an array's or an object's elements, as if they were characters.
unfoldable pub message_of : Json → Option Text
message_of error = elim (find error Key.message) [
  | none ↦ some none
  | some (text message) ↦ some (some message)
  | some (array items) ↦ none
  | some (object members) ↦ none
  | some _ ↦ some none
]
