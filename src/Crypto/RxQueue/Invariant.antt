-- ===== src/Crypto/RxQueue/Invariant.antt =====
-- RxQueue.cpp under every interleaving of its callers with the background thread.
use rxs_supported.Common.{
  Option, none, some, Bool, true, false, ◌≡◌, ◌≢◌, refl, arith, inl, inr, Option-cases,
}
use rxs_supported.Crypto.RxSeed.{RxSeed, is_equal, is_equal_refl}
use rxs_supported.Crypto.RxBasicStorage.{Storage, init-seed}
use rxs_supported.Crypto.RxQueue.{
  RxQueue, Item, State, idle, pending, shutdown, Worker, waiting, building, built, ended, is_idle,
  is_shutdown, enqueue, is_ready, shut_down, wake, finish, publish, Move, shuts_down, wakes,
  finishes, publishes, Reach, start, enqueues, moves,
}

-- A build has a storage to write to.
abbrev pub HasStorage : Worker → Option Storage → Type 0
HasStorage (building item) none = ⊥
HasStorage (building item) (some st) = Unit
HasStorage (built item) none = ⊥
HasStorage (built item) (some st) = st.seed ≡ item.seed
HasStorage _ storage = Unit

-- A build that no request follows is for the seed asked for last.
abbrev pub Serves : Worker → RxSeed → Type 0
Serves (building item) seed = item.seed ≡ seed
Serves (built item) seed = item.seed ≡ seed
Serves _ seed = ⊥

abbrev pub Requested : Option Item → Worker → RxSeed → Type 0
Requested none worker seed = Serves worker seed
Requested (some item) ended seed = ⊥
Requested (some item) _ seed = item.seed ≡ seed

abbrev pub Quiet : Option Item → Worker → Option Storage → RxSeed → Type 0
Quiet none waiting none seed = Unit
Quiet none waiting (some st) seed = st.seed ≡ seed
Quiet _ _ _ _ = ⊥

abbrev pub Stored : Option Storage → Type 0
Stored none = ⊥
Stored (some st) = Unit

abbrev pub StateInv : State → Option Item → Worker → Option Storage → RxSeed → Type 0
StateInv idle request worker storage seed = Quiet request worker storage seed
StateInv pending request worker storage seed =
    Requested request worker seed × Stored storage × HasStorage worker storage
StateInv shutdown request worker storage seed = HasStorage worker storage

abbrev pub Inv : RxQueue → Type 0
Inv q = StateInv q.state q.request q.worker q.storage q.seed

enqueue-Inv :
    (q : RxQueue) (item : Item) → is_shutdown q.state ≡ false → Inv q → Inv (enqueue q item)
unfolding enqueue
enqueue-Inv q item h v = ground arith

shut_down-Inv : (q : RxQueue) → Inv q → Inv (shut_down q)
unfolding shut_down
shut_down-Inv q v = ground arith

wake-Inv :
    (q r : RxQueue) → q.worker ≡ waiting → is_idle q.state ≡ false → wake q ≡ some r → Inv q → Inv r
unfolding wake
wake-Inv q r w h e v = ground arith

finish-Inv :
    (q r : RxQueue) (item : Item) (cache done : Bool)
    → q.worker ≡ building item
    → finish q item cache done ≡ some r
    → Inv q
    → Inv r
unfolding finish
finish-Inv q r item cache done w e v = elim (Option-cases q.storage) [
  | inl n ↦ ground arith
  | inr (st, n) ↦ ground (arith, init-seed st item.seed cache done)
]

publish-Inv : (q : RxQueue) (item : Item) → q.worker ≡ built item → Inv q → Inv (publish q item)
unfolding publish
publish-Inv q item w v = ground arith

Move-Inv : {q r : RxQueue} → Move q r → Inv q → Inv r
Move-Inv {q} shuts_down v = shut_down-Inv q v
Move-Inv {q} {r} (wakes w h e) v = wake-Inv q r w h e v
Move-Inv {q} {r} (finishes item cache done w e) v = finish-Inv q r item cache done w e v
Move-Inv {q} (publishes item w) v = publish-Inv q item w v

pub Reach-Inv : {q : RxQueue} → Reach q → Inv q
Reach-Inv start = tt
Reach-Inv (enqueues {q} r item h) = enqueue-Inv q item h (Reach-Inv r)
Reach-Inv (moves r m) = Move-Inv m (Reach-Inv r)

-- In every interleaving the background thread finds a request when it wakes, and a storage when it
-- builds: neither an empty optional nor a null pointer is used.
pub Reach-safe :
    (q : RxQueue)
    → Reach q
    → (q.worker ≡ waiting → is_idle q.state ≡ false → wake q ≢ none)
      × ((item : Item) (cache done : Bool)
          → q.worker ≡ building item
          → finish q item cache done ≢ none)
unfolding wake finish
Reach-safe q r = let v = Reach-Inv r in ((λ w h. ground arith), (λ item cache done w. ground arith))

-- Whoever is told that the dataset of a seed is ready finds no build under way and no request
-- waiting, and the storage was last built for a seed that compares equal.
pub is_ready_sound :
    (q : RxQueue) (seed : RxSeed)
    → Reach q
    → is_ready q seed ≡ true
    → (q.worker ≡ waiting)
      × (q.request ≡ none)
      × ((st : Storage) × (q.storage ≡ some st) × (is_equal st.seed seed ≡ true))
unfolding is_ready
is_ready_sound q seed r h = elim (Option-cases q.storage) [
  | inl n ↦ absurd (ground (arith, Reach-Inv r))
  | inr (st, n) ↦ (
    ground (arith, Reach-Inv r),
    ground (arith, Reach-Inv r),
    (st, n, ground (arith, Reach-Inv r)),
  )
]

-- The queues that have been asked for a seed, and for no other since.
pub data Asked (seed : RxSeed) : RxQueue → Type 0 where
  asks :
      {q r : RxQueue} (item : Item)
      → Reach q
      → is_shutdown q.state ≡ false
      → item.seed ≡ seed
      → r ≡ enqueue q item
      → Asked seed r
  goes_on : {q r : RxQueue} → Asked seed q → Move q r → Asked seed r

Asked-Inv : {seed : RxSeed} {q : RxQueue} → Asked seed q → Inv q
Asked-Inv (asks {q} item r h e f) = rw f (enqueue-Inv q item h (Reach-Inv r))
Asked-Inv (goes_on a m) = Move-Inv m (Asked-Inv a)

Move-seed : {q r : RxQueue} → Move q r → Inv q → r.seed ≡ q.seed
unfolding wake finish publish shut_down
Move-seed {q} shuts_down v = refl
Move-seed {q} (wakes w h e) v = ground arith
Move-seed {q} (finishes item cache done w e) v = ground arith
Move-seed {q} (publishes item w) v = ground arith

-- The newest request wins: the queue's seed compares equal to the one asked for last.
Asked-seed : (seed : RxSeed) (q : RxQueue) → Asked seed q → is_equal q.seed seed ≡ true
unfolding enqueue
Asked-seed seed q (asks {q = p} item r h e f) =
    rw (f, ← e) (ground (arith, is_equal_refl item.seed))
Asked-seed seed q (goes_on {q = p} a m) = rw (Move-seed m (Asked-Inv a)) (Asked-seed seed p a)
