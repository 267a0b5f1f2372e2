-- ===== src/Crypto/RxQueue.antt =====
-- crypto/rx/RxQueue.{h,cpp}: datasets are built by a background thread, one request at a time.
-- Each function below is what one thread does while it holds the mutex, and `finish` is the build
-- between two such sections. Without RXS_FEATURE_HWLOC, or with no node set, the storage is a
-- RxBasicStorage.
pub mod Invariant
pub mod Drain
mod Tests
use rxs_supported.Common.{
  ℕ, zero, suc, ◌+◌, List, [], ◌∷◌, Option, none, some, Bool, true, false, ◌&&◌, ◌||◌, not,
  if◌then◌else◌, ◌≡◌,
}
use rxs_supported.Crypto.RxSeed.{RxSeed, is_equal}
use rxs_supported.Crypto.RxBasicStorage.{Storage, new_storage, no_seed}
use rxs_supported.Crypto.RxBasicStorage

-- RxQueueItem.
pub record Item : Type 0 where
  pub seed : RxSeed
  pub nodeset : List ℕ
  pub threads : ℕ
  pub huge_pages : Bool
  pub one_gb_pages : Bool
  pub mode : ℕ
  pub priority : ℕ

pub data State : Type 0 where
  idle pending shutdown : State

-- Where the background thread stands: at the wait, inside `init`, behind it, or at its end.
pub data Worker : Type 0 where
  waiting : Worker
  building : Item → Worker
  built : Item → Worker
  ended : Worker

-- `sent` counts the calls of `m_async->send()`.
pub record RxQueue : Type 0 where
  pub storage : Option Storage
  pub seed : RxSeed
  pub state : State
  pub request : Option Item
  pub worker : Worker
  pub sent : ℕ

abbrev pub new_queue : RxQueue
new_queue = record {
  storage = none;
  seed = no_seed;
  state = idle;
  request = none;
  worker = waiting;
  sent = 0;
}

abbrev pub is_idle : State → Bool
is_idle idle = true
is_idle _ = false

abbrev pub is_pending : State → Bool
is_pending pending = true
is_pending _ = false

abbrev pub is_shutdown : State → Bool
is_shutdown shutdown = true
is_shutdown _ = false

abbrev has_value : Option Item → Bool
has_value none = false
has_value (some item) = true

abbrev ensure_storage : Option Storage → Option Storage
ensure_storage none = some new_storage
ensure_storage (some st) = some st

unfoldable pub enqueue : RxQueue → Item → RxQueue
enqueue q item =
    let q' : RxQueue = record q { storage = ensure_storage q.storage } in
    if is_pending q'.state && is_equal q'.seed item.seed
    then q'
    else record q' { request = some item; seed = item.seed; state = pending }

unfoldable pub is_ready : RxQueue → RxSeed → Bool
is_ready q seed = elim q.storage [
  | none ↦ false
  | some st ↦ st.allocated && is_idle q.state && is_equal q.seed seed
]

-- RxQueue::dataset; `false` is a null pointer.
unfoldable pub dataset : RxQueue → RxSeed → Bool
dataset q job = elim q.storage [
  | none ↦ false
  | some st ↦ if is_ready q job then RxBasicStorage.dataset st job else false
]

-- The destructor's first block.
unfoldable pub shut_down : RxQueue → RxQueue
shut_down q = record q { state = shutdown }

-- What the background thread does when its wait is over; `none` is the use of an optional without
-- a value.
unfoldable pub wake : RxQueue → Option RxQueue
wake q =
    if is_shutdown q.state
    then some (record q { worker = ended })
    else if not (is_pending q.state)
    then some q
    else elim q.request [
      | none ↦ none
      | some item ↦ some (record q { request = none; worker = building item })
    ]

-- The end of `m_storage->init`; `none` is a call through a null pointer.
unfoldable pub finish : RxQueue → Item → Bool → Bool → Option RxQueue
finish q item cache done = elim q.storage [
  | none ↦ none
  | some st ↦ some (record q {
    storage = some (RxBasicStorage.init st item.seed cache done);
    worker = built item;
  })
]

unfoldable pub publish : RxQueue → Item → RxQueue
publish q item =
    if is_shutdown q.state || has_value q.request
    then record q { worker = waiting }
    else record q { seed = item.seed; state = idle; sent = q.sent + 1; worker = waiting }

-- A move of the background thread, or the shutdown. The wait ends only when the state is not idle.
pub data Move (q : RxQueue) : RxQueue → Type 0 where
  shuts_down : Move q (shut_down q)
  wakes : {r : RxQueue} → q.worker ≡ waiting → is_idle q.state ≡ false → wake q ≡ some r → Move q r
  finishes :
      {r : RxQueue} (item : Item) (cache done : Bool)
      → q.worker ≡ building item
      → finish q item cache done ≡ some r
      → Move q r
  publishes : (item : Item) → q.worker ≡ built item → Move q (publish q item)

-- The queue is not asked for anything once its destructor runs.
pub data Reach : RxQueue → Type 0 where
  start : Reach new_queue
  enqueues :
      {q : RxQueue} → Reach q → (item : Item) → is_shutdown q.state ≡ false → Reach (enqueue q item)
  moves : {q r : RxQueue} → Reach q → Move q r → Reach r

-- What the background thread does next by itself; `none` where it waits or has ended. `cache` and
-- `done` are what a build would meet.
unfoldable pub worker_move : RxQueue → Bool → Bool → Option RxQueue
worker_move q cache done = elim q.worker [
  | waiting ↦ if is_idle q.state then none else wake q
  | building item ↦ finish q item cache done
  | built item ↦ some (publish q item)
  | ended ↦ none
]

-- The background thread alone, for `n` moves at most; `outcome` says what each build meets.
unfoldable pub drive : ℕ → (ℕ → Bool × Bool) → RxQueue → RxQueue
drive zero outcome q = q
drive (suc n) outcome q = elim (worker_move q (outcome n).0 (outcome n).1) [
  | none ↦ q
  | some r ↦ drive n outcome r
]
