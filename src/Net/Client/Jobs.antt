-- ===== src/Net/Client/Jobs.antt =====
-- Client.cpp: the jobs that `parseJob` accepts and refuses.
use rxs_supported.Common.{
  ℕ, ◌<◌, List, ◌∷◌, Bool, true, false, not, ◌==◌, Option, none, some, ◌≡◌, ◌≢◌, refl, arith,
  Option-cases, inl, inr, if_elim, option_elim, ap,
}
use rxs_supported.Net.Client.{
  Client, Pool, Effect, asked_verify, Act, World, close, close_socket, has_nicehash,
}
use rxs_supported.Net.Client.Key
use rxs_supported.Net.Client.Responses.{
  parse_job, check_target, check_algorithm, take_job, take_seed, take_blob, choose_algorithm,
  new_job, Verdict, accepted, fault, refused, is_null,
}
use rxs_supported.Crypto.Algorithm.{is_valid}
use rxs_supported.Net.Job.{
  Job, set_blob, fill_blob, set_target, set_seed_hash, set_sig_key, is_equal, move, copy,
}
use rxs_supported.Tools.Json.{Json, is_object, get_string, get_uint64}

-- What the parts of a job that `parseJob` checks are, as long as it is not changed in them.
abbrev Checked : Job → Job → Type 0
Checked j j' =
    (j'.id ≡ j.id)
    × (j'.client_id ≡ j.client_id)
    × (j'.algorithm ≡ j.algorithm)
    × (j'.target ≡ j.target)

set_sig_key-Checked : (key : Option (List ℕ)) (j : Job) → Checked j (set_sig_key key j)
unfolding set_sig_key
set_sig_key-Checked none j = (refl, refl, refl, refl)
set_sig_key-Checked (some key) j = ground arith

take_seed-Checked : (p : Pool) (params : Json) (j : Job) → Checked j (take_seed p params j).1
unfolding take_seed set_seed_hash
take_seed-Checked p params j = ground arith

set_blob-Checked : (blob : Option (List ℕ)) (j : Job) → Checked j (set_blob blob j).1
unfolding set_blob fill_blob
set_blob-Checked none j = (refl, refl, refl, refl)
set_blob-Checked (some blob) j = ground arith

take_blob-Checked : (p : Pool) (params : Json) (j : Job) → Checked j (take_blob p params j).1
unfolding take_blob
take_blob-Checked p params j =
    if_elim (λ (x : Bool × Job). Checked j x.1) p.self_select (refl, refl, refl, refl)
      (set_blob-Checked (get_string params Key.blob) j)

choose_algorithm-ids :
    (p : Pool) (algo : Option (List ℕ)) (j : Job)
    → ((choose_algorithm p algo j).id ≡ j.id)
      × ((choose_algorithm p algo j).client_id ≡ j.client_id)
unfolding choose_algorithm
choose_algorithm-ids p algo j = ground arith

-- A target that is taken is not 0.
set_target-Checked :
    (t : Option (List ℕ)) (j j' : Job)
    → set_target t j ≡ some (true, j')
    → (0 < j'.target) × (j'.id ≡ j.id) × (j'.client_id ≡ j.client_id) × (j'.algorithm ≡ j.algorithm)
unfolding set_target
set_target-Checked none j j' e = absurd (ground arith)
set_target-Checked (some t) j j' e = ground arith

take_job-Checked :
    (j : Job) (c : Client) → (take_job j c).0 ≡ accepted → Checked j (take_job j c).1.0.job
unfolding take_job move copy
take_job-Checked j c e = ground arith

module _ (w : World) where
  abbrev Allowed : Job → Type 0
  Allowed j = (is_valid j.algorithm ≡ true) × (w.verify j.algorithm ≡ true)

  check_algorithm-Allowed :
      (params : Json) (j : Job) (c : Client)
      → (check_algorithm w params j c).0 ≡ accepted
      → let j' = (check_algorithm w params j c).1.0.job in Checked j j' × Allowed j'
  unfolding check_algorithm
  check_algorithm-Allowed params j c e =
      let seeded = (take_seed c.pool params j).1 in
      let final = set_sig_key (get_string params Key.sig_key) seeded in
      ground (
        arith,
        take_seed-Checked c.pool params j,
        set_sig_key-Checked (get_string params Key.sig_key) seeded,
        take_job-Checked final c,
      )

  check_target-Allowed :
      (params : Json) (j : Job) (c : Client)
      → (check_target w params j c).0 ≡ accepted
      → let j' = (check_target w params j c).1.0.job in
        (0 < j'.target) × (j'.id ≡ j.id) × (j'.client_id ≡ j.client_id) × Allowed j'
  unfolding check_target
  check_target-Allowed params j c e =
      elim (Option-cases (set_target (get_string params Key.target) j)) [
        | inl n ↦ absurd (ground (arith, n))
        | inr ((ok, j'), s) ↦
            let k = record j' { height = get_uint64 params Key.height 0 } in
            ground (
              arith,
              s,
              set_target-Checked (get_string params Key.target) j j',
              check_algorithm-Allowed params k c,
            )
      ]

  -- A job that is accepted becomes the client's: its id is the one that the pool sent, its client's id the
  -- session's, its target is not 0, and its algorithm is known and one that the listener has allowed.
  pub parse_job-Accepted :
      (params : Json) (c : Client)
      → (parse_job w params c).0 ≡ accepted
      → let j = (parse_job w params c).1.0.job in
        (is_null j.id ≡ false)
        × (j.id ≡ get_string params Key.job_id)
        × (j.client_id ≡ c.rpc_id)
        × (0 < j.target)
        × (is_valid j.algorithm ≡ true)
        × (w.verify j.algorithm ≡ true)
  unfolding parse_job
  parse_job-Accepted params c e =
      let j = record (new_job (has_nicehash c) c.pool.algorithm c.rpc_id) {
        id = get_string params Key.job_id;
      } in
      let chosen = choose_algorithm c.pool (get_string params Key.algo) j in
      let filled = (take_blob c.pool params chosen).1 in
      ground (
        arith,
        choose_algorithm-ids c.pool (get_string params Key.algo) j,
        take_blob-Checked c.pool params chosen,
        check_target-Allowed params filled c,
      )

  -- Without its client's id.
  abbrev pub bare : Job → Job
  bare j = record j { client_id = none }

  -- Unless the job was accepted, there is the client's former one, and no more jobs are counted.
  abbrev Keeps : Client → Verdict × Act → Type 0
  Keeps c (accepted, (c', es)) = Unit
  Keeps c (fault, (c', es)) = (bare c'.job ≡ bare c.job) × (c'.jobs ≡ c.jobs)
  Keeps c (refused code, (c', es)) = (bare c'.job ≡ bare c.job) × (c'.jobs ≡ c.jobs)

  close-kept : (c : Client) → ((close c).0.job ≡ c.job) × ((close c).0.jobs ≡ c.jobs)
  unfolding close close_socket
  close-kept c = ground arith

  take_job-Keeps : (j : Job) (c : Client) → Keeps c (take_job j c)
  unfolding take_job
  take_job-Keeps j c =
      let c' = record c { job = record (c.job) { client_id = c.rpc_id } } in
      if_elim (Keeps c) (not (is_equal c'.job j)) tt (
        if_elim (Keeps c) (c.jobs == 0) (refl, refl) (ap bare (close-kept c').0, (close-kept c').1))

  asked_also :
      (c : Client) (e : Effect) (x : Verdict × Act) → Keeps c x → Keeps c (x.0, (x.1.0, e ∷ x.1.1))
  asked_also c e (accepted, (c', es)) h = tt
  asked_also c e (fault, (c', es)) h = h
  asked_also c e (refused code, (c', es)) h = h

  check_algorithm-Keeps :
      (params : Json) (j : Job) (c : Client) → Keeps c (check_algorithm w params j c)
  unfolding check_algorithm
  check_algorithm-Keeps params j c =
      let j' = set_sig_key (get_string params Key.sig_key) (take_seed c.pool params j).1 in
      if_elim (Keeps c) (not (is_valid j.algorithm)) (refl, refl)
        (if_elim (Keeps c) (not (w.verify j.algorithm)) (refl, refl)
          (if_elim (Keeps c) (not (take_seed c.pool params j).0) (refl, refl)
            (asked_also c (asked_verify j.algorithm) (take_job j' c) (take_job-Keeps j' c))))

  check_target-Keeps : (params : Json) (j : Job) (c : Client) → Keeps c (check_target w params j c)
  unfolding check_target
  check_target-Keeps params j c =
      option_elim (Keeps c) (set_target (get_string params Key.target) j) (refl, refl)
        (λ x.
          if_elim (Keeps c) (not (x.0)) (refl, refl)
            (check_algorithm-Keeps params (record (x.1) { height = get_uint64 params Key.height 0 })
              c))

  parse_job-Keeps : (params : Json) (c : Client) → Keeps c (parse_job w params c)
  unfolding parse_job
  parse_job-Keeps params c =
      let j = record (new_job (has_nicehash c) c.pool.algorithm c.rpc_id) {
        id = get_string params Key.job_id;
      } in
      let chosen = choose_algorithm c.pool (get_string params Key.algo) j in
      let filled = take_blob c.pool params chosen in
      if_elim (Keeps c) (not (is_object params)) (refl, refl)
        (if_elim (Keeps c) (is_null (get_string params Key.job_id)) (refl, refl)
          (if_elim (Keeps c) (not (filled.0)) (refl, refl) (check_target-Keeps params filled.1 c)))

  kept_lem :
      (c : Client) (x : Verdict × Act)
      → Keeps c x
      → x.0 ≢ accepted
      → (bare x.1.0.job ≡ bare c.job) × (x.1.0.jobs ≡ c.jobs)
  kept_lem c (accepted, (c', es)) h n = absurd (n refl)
  kept_lem c (fault, (c', es)) h n = h
  kept_lem c (refused code, (c', es)) h n = h

  -- A job that is not accepted, for whatever reason, leaves the client's own as it was but for its client's
  -- id, and the number of jobs that were accepted as well.
  pub parse_job-Refused :
      (params : Json) (c : Client)
      → (parse_job w params c).0 ≢ accepted
      → let c' = (parse_job w params c).1.0 in (bare c'.job ≡ bare c.job) × (c'.jobs ≡ c.jobs)
  parse_job-Refused params c n = kept_lem c (parse_job w params c) (parse_job-Keeps params c) n
