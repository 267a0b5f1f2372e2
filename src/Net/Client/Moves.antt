-- ===== src/Net/Client/Moves.antt =====
-- Client.cpp: what a client may do with one line from its pool, as a relation: it closes the connection,
-- answers a submission, or changes nothing but its session's data.
pub mod Sending
use rxs_supported.Common.{
  ℕ, zero, suc, ◌+◌, List, [], ◌∷◌, ◌++◌, Bool, true, false, not, ◌&&◌, ◌||◌, ltb, ◌==◌,
  if◌then◌else◌, Option, none, some, All, ◌≡◌, refl, arith, length, Bool-cases, Option-cases, inl,
  inr, if_elim, subst, leb,
}
use rxs_supported.Net.Client.{
  Client, Effect, told_result, told_login, told_job, asked_verify, Act, ◌then◌, World, close,
  start_timeout, has_nicehash, no_extensions,
}
use rxs_supported.Net.Client.Responses.{
  extend, extend_by, extend_all, extensions_of, parse_extensions, take_job, check_algorithm,
  check_target, parse_job, parse_login, handle_response, handle_submit_response, choose_algorithm,
  take_blob, is_null, reset_jobs, is_critical_error, message_of, Verdict, accepted, fault, refused,
  take_seed, new_job,
}
use rxs_supported.Net.Client.Calls.{
  parse_notification, on_error, parse_response, after_job, after_login, is_one, has_method,
  dispatch, parse, parse_all,
}
use rxs_supported.Net.Client.Key
use rxs_supported.Common.Maps.{lookup}
use rxs_supported.Crypto.Algorithm.{is_valid}
use rxs_supported.Net.Job.{Job, Text, is_equal, set_sig_key, set_target, is_valid as is_valid_job}
use rxs_supported.Net.Url.{first}
use rxs_supported.Tools.Json.{
  Json, int64, get_value, exactly, below, find, get_string, get_uint64, get_object, is_object,
  str_eq, Items, nil, item, Integer, text, null, real, bool, number, negative, array, object,
}

-- What is left as it was.
abbrev pub Alike : Client → Client → Type 0
Alike c c' =
    (c'.state ≡ c.state) × (c'.socket ≡ c.socket) × (c'.dns ≡ c.dns) × (c'.results ≡ c.results)

-- Neither the connection nor a submission is concerned.
abbrev pub Plain : Effect → Type 0
Plain (Effect.sent bytes) = Unit
Plain told_login = Unit
Plain (told_job j) = Unit
Plain (asked_verify a) = Unit
Plain (Effect.answered c s e) = Unit
Plain Effect.faulted = Unit
Plain _ = ⊥

pub data Moves (w : World) : Client → Act → Type 0 where
  still : (c c' : Client) (es : List Effect) → Alike c c' → All Plain es → Moves w c (c', es)
  cleared : (c : Client) → Moves w c (record c { results = [] }, [])
  shut : (c : Client) → Moves w c (close c)
  told :
      (id : Integer) (error : Text) (c : Client) → Moves w c (handle_submit_response w id error c)
  edit : (c : Client) (p : Act) (c' : Client) → Moves w c p → Alike (p.0) c' → Moves w c (c', p.1)
  both :
      (c : Client) (p : Act) (k : Client → Act)
      → Moves w c p
      → Moves w (p.0) (k p.0)
      → Moves w c (p then k)

extend-Alike : (now : ℕ) (c : Client) (name : List ℕ) → Alike c (extend now c name)
unfolding extend start_timeout
extend-Alike now c name = ground arith

Alike-trans : (a b c : Client) → Alike a b → Alike b c → Alike a c
Alike-trans a b c h k = ground arith

extend_by-Alike : (now : ℕ) (c : Client) (ext : Json) → Alike c (extend_by now c ext)
extend_by-Alike now c (text name) = extend-Alike now c name
extend_by-Alike now c null = (refl, refl, refl, refl)
extend_by-Alike now c real = (refl, refl, refl, refl)
extend_by-Alike now c (bool b) = (refl, refl, refl, refl)
extend_by-Alike now c (number n) = (refl, refl, refl, refl)
extend_by-Alike now c (negative n) = (refl, refl, refl, refl)
extend_by-Alike now c (array i) = (refl, refl, refl, refl)
extend_by-Alike now c (object m) = (refl, refl, refl, refl)

extend_all-Alike : (now : ℕ) (exts : Items) (c : Client) → Alike c (extend_all now exts c)
unfolding extend_all
extend_all-Alike now nil c = (refl, refl, refl, refl)
extend_all-Alike now (item ext exts) c =
    Alike-trans c (extend_by now c ext) (extend_all now exts (extend_by now c ext))
      (extend_by-Alike now c ext) (extend_all-Alike now exts (extend_by now c ext))

parse_extensions-Alike :
    (now : ℕ) (result : Json) (c : Client) → Alike c (parse_extensions now result c)
unfolding parse_extensions
parse_extensions-Alike now result c = elim (Option-cases (find result Key.extensions)) [
  | inl e ↦ rw (parse_extensions, e) (refl, refl, refl, refl)
  | inr (exts, e) ↦
      rw (parse_extensions, e)
        (extend_all-Alike now (extensions_of exts) (record c { extensions = no_extensions }))
]

module _ (w : World) where
  abbrev Ends : Client → Verdict × Act → Type 0
  Ends c x = Moves w c x.1

  take_job-Moves : (j : Job) (c : Client) → Moves w c (take_job j c).1
  unfolding take_job ◌then◌
  take_job-Moves j c =
      let c' = record c { job = record (c.job) { client_id = c.rpc_id } } in
      let same : Alike c c' = (refl, refl, refl, refl) in
      if_elim (Ends c) (not (is_equal c'.job j)) (still c _ [] (refl, refl, refl, refl) tt) (
        if_elim (Ends c) (c.jobs == 0) (still c c' [] same tt)
          (both c (c', []) close (still c c' [] same tt) (shut c')))

  check_algorithm-Moves :
      (params : Json) (j : Job) (c : Client) → Moves w c (check_algorithm w params j c).1
  unfolding check_algorithm ◌then◌
  check_algorithm-Moves params j c =
      let asked : Moves w c (c, asked_verify j.algorithm ∷ []) =
        still c c _ (refl, refl, refl, refl) (tt, tt) in
      if_elim (Ends c) (not (is_valid j.algorithm)) (still c c [] (refl, refl, refl, refl) tt) (
        if_elim (Ends c) (not (w.verify j.algorithm)) asked (
          if_elim (Ends c) (not (take_seed c.pool params j).0) asked (
            let j' = set_sig_key (get_string params Key.sig_key) (take_seed c.pool params j).1 in
            both c (c, asked_verify j.algorithm ∷ []) (λ c'. (take_job j' c').1) asked
              (take_job-Moves j' c))))

  check_target-Moves :
      (params : Json) (j : Job) (c : Client) → Moves w c (check_target w params j c).1
  unfolding check_target
  check_target-Moves params j c =
      elim (Option-cases (set_target (get_string params Key.target) j)) [
        | inl e ↦ rw (check_target, e) (still c _ _ (refl, refl, refl, refl) (tt, tt))
        | inr ((ok, j'), e) ↦
            rw (check_target, e)
              (if_elim (Ends c) (not ok) (still c c [] (refl, refl, refl, refl) tt) (
                check_algorithm-Moves params (record j' { height = get_uint64 params Key.height 0 })
                  c))
      ]

  parse_job-Moves : (params : Json) (c : Client) → Moves w c (parse_job w params c).1
  unfolding parse_job
  parse_job-Moves params c =
      let stay : Moves w c (c, []) = still c c [] (refl, refl, refl, refl) tt in
      let id = get_string params Key.job_id in
      let j = record (new_job (has_nicehash c) c.pool.algorithm c.rpc_id) { id = id } in
      let (ok, j') =
        take_blob c.pool params (choose_algorithm c.pool (get_string params Key.algo) j) in
      if_elim (Ends c) (not (is_object params)) stay (
        if_elim (Ends c) (is_null id) stay
          (if_elim (Ends c) (not ok) stay (check_target-Moves params j' c)))

  reset_jobs-Moves : (c : Client) (x : Verdict × Act) → Moves w c x.1 → Moves w c (reset_jobs w x).1
  reset_jobs-Moves c (v, (c', es)) m = edit c (c', es) _ m (refl, refl, refl, refl)

  parse_login-Moves : (result : Json) (c : Client) → Moves w c (parse_login w result c).1
  unfolding parse_login ◌then◌
  parse_login-Moves result c =
      let id = get_string result Key.id in
      let c' = record c { rpc_id = id } in
      let named : Moves w c (c', []) = still c c' [] (refl, refl, refl, refl) tt in
      if_elim (Ends c) (is_null id) named (
        reset_jobs-Moves c
          (parse_job w (get_object result Key.job) (parse_extensions w.now result c'))
          (both c (parse_extensions w.now result c', [])
            (λ a. (parse_job w (get_object result Key.job) a).1)
            (edit c (c', []) (parse_extensions w.now result c') named
              (parse_extensions-Alike w.now result c'))
            (parse_job-Moves (get_object result Key.job) (parse_extensions w.now result c'))))

  after_job-Moves : (c : Client) (x : Verdict × Act) → Moves w c x.1 → Moves w c (after_job w x)
  unfolding ◌then◌
  after_job-Moves c (accepted, (c', es)) m =
      both c (c', es) (λ a. (a, told_job a.job ∷ [])) m
        (still c' c' _ (refl, refl, refl, refl) (tt, tt))
  after_job-Moves c (fault, (c', es)) m = m
  after_job-Moves c (refused code, (c', es)) m = both c (c', es) close m (shut c')

  parse_notification-Moves :
      (method : List ℕ) (params : Json) (c : Client)
      → Moves w c (parse_notification w method params c)
  unfolding parse_notification
  parse_notification-Moves method params c =
      if_elim (Moves w c) (str_eq method Key.job)
        (after_job-Moves c (parse_job w params c) (parse_job-Moves params c))
        (still c c [] (refl, refl, refl, refl) tt)

  on_error-Moves :
      (id : Integer) (message : Option Text) (c : Client) → Moves w c (on_error w id message c)
  unfolding on_error
  on_error-Moves id none c = still c _ _ (refl, refl, refl, refl) (tt, tt)
  on_error-Moves id (some message) c =
      let t = told id message c in
      if_elim (Moves w c) (c.id == 1 || is_critical_error message) (both c _ close t (shut _)) t

  after_login-Moves : (c : Client) (x : Verdict × Act) → Moves w c x.1 → Moves w c (after_login w x)
  unfolding ◌then◌
  after_login-Moves c (accepted, (c', es)) m =
      let c'' = record c' { failures = some 0 } in
      let l : Moves w c (c'', es ++ told_login ∷ []) =
        both c (c', es) (λ a. (record a { failures = some 0 }, told_login ∷ [])) m
          (still c' c'' _ (refl, refl, refl, refl) (tt, tt)) in
      if_elim (Moves w c) (is_valid_job c'.job)
        (both c (c'', es ++ told_login ∷ []) (λ a. (a, told_job a.job ∷ [])) l
          (still c'' c'' _ (refl, refl, refl, refl) (tt, tt)))
        l
  after_login-Moves c (fault, (c', es)) m = m
  after_login-Moves c (refused code, (c', es)) m = both c (c', es) close m (shut c')

  abbrev Answers : Client → Option Act → Type 0
  Answers c none = Unit
  Answers c (some p) = Moves w c p

  handle_response-Answers :
      (id : Integer) (error : Json) (c : Client) → Answers c (handle_response w id error c)
  unfolding handle_response
  handle_response-Answers (below n) error c = tt
  handle_response-Answers (exactly n) error c = elim (Option-cases (lookup n c.callbacks)) [
    | inl e ↦ rw (handle_response, e) (if_elim (Answers c) (leb n 1) tt tt)
    | inr (s, e) ↦
        rw (handle_response, e)
          (if_elim (Answers c) (leb n 1) tt (still c _ _ (refl, refl, refl, refl) (tt, tt)))
  ]

  parse_response-Moves :
      (id : Integer) (result error : Json) (c : Client)
      → Moves w c (parse_response w id result error c)
  unfolding parse_response
  parse_response-Moves id result error c = elim (Option-cases (handle_response w id error c)) [
    | inr (p, e) ↦ rw (parse_response, e) (subst (Answers c) e (handle_response-Answers id error c))
    | inl e ↦
        rw (parse_response, e)
          (if_elim (Moves w c) (is_object error) (on_error-Moves id (message_of error) c) (
            if_elim (Moves w c) (not (is_object result)) (still c c [] (refl, refl, refl, refl) tt)
              (if_elim (Moves w c) (is_one id)
                (after_login-Moves c (parse_login w result c) (parse_login-Moves result c))
                (told id none c))))
  ]

  pub dispatch-Moves :
      (doc : Json) (c : Client)
      → has_method w doc Key.client_reconnect ≡ false
      → Moves w c (dispatch w doc c)
  unfolding dispatch
  dispatch-Moves doc c h =
      rw (dispatch, h)
        (elim (Option-cases (int64 (get_value doc Key.id))) [
          | inr (id, e) ↦
              rw e (parse_response-Moves id (get_value doc Key.result) (get_value doc Key.error) c)
          | inl e ↦ rw e (elim (Option-cases (get_string doc Key.method)) [
            | inl f ↦ rw f (still c c [] (refl, refl, refl, refl) tt)
            | inr (method, f) ↦ rw f (
                if_elim (Moves w c) (is_object (get_value doc Key.error))
                  (still c c [] (refl, refl, refl, refl) tt)
                  (parse_notification-Moves method (get_value doc Key.params) c))
          ])
        ])

  -- No line that a parser reads asks the client to reconnect.
  abbrev pub Calm : Option Json → Type 0
  Calm none = Unit
  Calm (some doc) = has_method w doc Key.client_reconnect ≡ false

  parse-Moves : (line : List ℕ) (c : Client) → Calm (w.parse_json line) → Moves w c (parse w line c)
  unfolding parse
  parse-Moves line c h =
      let stay : Moves w c (c, []) = still c c [] (refl, refl, refl, refl) tt in
      if_elim (Moves w c) (ltb (length line) 22 || not (first line == b'{')) stay
        (elim (Option-cases (w.parse_json line)) [
          | inl e ↦ rw e stay
          | inr (doc, e) ↦
              rw e (if_elim (Moves w c) (is_object doc) (dispatch-Moves doc c (rw e at h)) stay)
        ])

  pub parse_all-Moves :
      (lines : List (List ℕ)) (c : Client)
      → All (λ line. Calm (w.parse_json line)) lines
      → Moves w c (parse_all w lines c)
  unfolding parse_all
  parse_all-Moves [] c h = still c c [] (refl, refl, refl, refl) tt
  parse_all-Moves (line ∷ lines) c (p, h) =
      if_elim (Moves w c) (c.alive)
        (both c (parse w line c) (parse_all w lines) (parse-Moves line c p)
          (parse_all-Moves lines (parse w line c).0 h))
        (still c c [] (refl, refl, refl, refl) tt)
