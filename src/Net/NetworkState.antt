-- ===== src/Net/NetworkState.antt =====
-- base/net/stratum/NetworkState.{h,cpp}: the counts of results, the best differences and the latencies.
pub mod Top
pub mod Counts
mod Tests
use rxs_supported.Common.{
  ℕ, zero, suc, ◌+◌, ◌-◌, ◌*◌, ◌/◌, ◌%◌, ◌^◌, List, [], ◌∷◌, ◌++◌, Bool, true, false, not, ltb, leb,
  ◌==◌, if◌then◌else◌, Option, none, some, get_elem?, take, length, replicate,
}

-- std::sort over reverse iterators: the greatest first.
unfoldable pub insert : ℕ → List ℕ → List ℕ
insert x [] = x ∷ []
insert x (y ∷ ys) = if ltb y x then x ∷ y ∷ ys else y ∷ insert x ys

unfoldable pub sort_reversed : List ℕ → List ℕ
sort_reversed [] = []
sort_reversed (x ∷ xs) = insert x (sort_reversed xs)

-- Numbers that wrap are uint64_t; texts are lists of characters, `none` a null String.
pub record NetworkState : Type 0 where
  pub algorithm : ℕ
  pub active : Bool
  pub pool : List ℕ
  pub top_diff : List ℕ
  pub latencies : List ℕ
  pub fingerprint : Option (List ℕ)
  pub ip : Option (List ℕ)
  pub tls : Option (List ℕ)
  pub accepted : ℕ
  pub connection_time : ℕ
  pub diff : ℕ
  pub failures : ℕ
  pub hashes : ℕ
  pub rejected : ℕ

abbrev pub zeros : List ℕ
zeros = 0 ∷ 0 ∷ 0 ∷ 0 ∷ 0 ∷ 0 ∷ 0 ∷ 0 ∷ 0 ∷ 0 ∷ []

unfoldable pub new_state : NetworkState
new_state = record {
  algorithm = 0;
  active = false;
  pool = [];
  top_diff = zeros;
  latencies = [];
  fingerprint = none;
  ip = none;
  tls = none;
  accepted = 0;
  connection_time = 0;
  diff = 0;
  failures = 0;
  hashes = 0;
  rejected = 0;
}

abbrev pub add64 : ℕ → ℕ → ℕ
add64 a b = (a + b) % 2 ^ 64

-- The parts of a SubmitResult that are read here.
pub record SubmitResult : Type 0 where
  pub diff : ℕ
  pub actual_diff : ℕ
  pub elapsed : ℕ

-- `m_topDiff[ln]` is the last element.
abbrev pub last : List ℕ → ℕ
last [] = 0
last (x ∷ []) = x
last (x ∷ y ∷ ys) = last (y ∷ ys)

abbrev pub set_last : ℕ → List ℕ → List ℕ
set_last d [] = []
set_last d (x ∷ []) = d ∷ []
set_last d (x ∷ y ∷ ys) = x ∷ set_last d (y ∷ ys)

unfoldable pub add_top : ℕ → List ℕ → List ℕ
add_top d top = if ltb (last top) d then sort_reversed (set_last d top) else top

abbrev pub capped : ℕ → ℕ
capped elapsed = if ltb 0xffff elapsed then 0xffff else elapsed

-- `add`; `error` is whether there is one.
unfoldable pub add : SubmitResult → Bool → NetworkState → NetworkState
add result true s = record s { rejected = add64 s.rejected 1 }
add result false s = record s {
  accepted = add64 s.accepted 1;
  hashes = add64 s.hashes result.diff;
  top_diff = add_top result.actual_diff s.top_diff;
  latencies = s.latencies ++ capped result.elapsed ∷ [];
}

unfoldable pub stop : NetworkState → NetworkState
stop s = record s {
  active = false;
  diff = 0;
  ip = none;
  tls = none;
  fingerprint = none;
  failures = add64 s.failures 1;
  latencies = [];
}

-- What a handler reads of a client. `name` is the text `host:port`.
pub record Client : Type 0 where
  pub name : List ℕ
  pub ip : Option (List ℕ)
  pub tls_version : Option (List ℕ)
  pub tls_fingerprint : Option (List ℕ)

-- snprintf with the size 255 keeps 254 characters and a zero.
unfoldable pub on_active : Client → ℕ → NetworkState → NetworkState
on_active client now s = record s {
  pool = take 254 client.name;
  ip = client.ip;
  tls = client.tls_version;
  fingerprint = client.tls_fingerprint;
  active = true;
  connection_time = now;
}

unfoldable pub on_job : ℕ → ℕ → NetworkState → NetworkState
on_job algorithm diff s = record s { algorithm = algorithm; diff = diff }

unfoldable pub on_pause : Bool → NetworkState → NetworkState
on_pause strategy_active s = if strategy_active then s else stop s

-- The state's own part in each handler; passing on to the listener is not followed.
pub data Event : Type 0 where
  active : (client : Client) → (now : ℕ) → Event
  job : (algorithm diff : ℕ) → Event
  pause : (strategy_active : Bool) → Event
  result : (submitted : SubmitResult) → (error : Bool) → Event

unfoldable pub step : NetworkState → Event → NetworkState
step s (active client now) = on_active client now s
step s (job algorithm diff) = on_job algorithm diff s
step s (pause strategy_active) = on_pause strategy_active s
step s (result submitted error) = add submitted error s

-- Events, the latest first.
abbrev pub run : List Event → NetworkState
run [] = new_state
run (e ∷ es) = step (run es) e

-- std::nth_element at `calls / 2`, from the smallest on.
unfoldable pub latency : NetworkState → ℕ
latency s =
    let calls = length s.latencies in
    if calls == 0 then 0 else elim (get_elem? (sort_reversed s.latencies) (calls - 1 - calls / 2)) [
      | none ↦ 0
      | some v ↦ v
    ]

abbrev pub connection_time : ℕ → NetworkState → ℕ
connection_time now s = if s.active then (now + 2 ^ 64 - s.connection_time) % 2 ^ 64 else 0

unfoldable pub avg_time : ℕ → NetworkState → ℕ
avg_time now s = if length s.latencies == 0 then 0 else connection_time now s / length s.latencies
