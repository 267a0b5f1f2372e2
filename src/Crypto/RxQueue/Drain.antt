-- ===== src/Crypto/RxQueue/Drain.antt =====
-- RxQueue.cpp: the background thread serves what it was asked for.
use rxs_supported.Common.{ℕ, zero, suc, ◌+◌, Option, none, some, Bool, ◌≡◌, refl, arith}
use rxs_supported.Crypto.RxSeed.{RxSeed}
use rxs_supported.Crypto.RxBasicStorage.{Storage, new_storage, no_seed, init-seed}
use rxs_supported.Crypto.RxBasicStorage
use rxs_supported.Crypto.RxQueue.{
  RxQueue, Item, idle, pending, Worker, waiting, building, built, ended, wake, finish, publish,
  worker_move, drive,
}
use rxs_supported.Crypto.RxQueue.Invariant.{Inv, Requested, Stored}

-- The queue is idle again, with the seed asked for.
abbrev pub Served : RxSeed → RxQueue → Type 0
Served seed q = (q.state ≡ idle) × (q.seed ≡ seed) × (q.request ≡ none) × (q.worker ≡ waiting)

module _ (outcome : ℕ → Bool × Bool) where
  drive_idle :
      (n : ℕ) (q : RxQueue) (seed : RxSeed) → Served seed q → Served seed (drive n outcome q)
  unfolding drive worker_move
  drive_idle zero q seed h = h
  drive_idle (suc n) q seed h = ground (arith)

  drive_move :
      (n : ℕ) (q r : RxQueue)
      → worker_move q (outcome n).0 (outcome n).1 ≡ some r
      → drive (suc n) outcome q ≡ drive n outcome r
  unfolding drive
  drive_move n q r e = rw (e, drive)

  -- A request has been taken over, and none follows.
  drive_built :
      (n : ℕ) (q : RxQueue) (item : Item)
      → q.worker ≡ built item
      → q.request ≡ none
      → q.state ≡ pending
      → item.seed ≡ q.seed
      → Served q.seed (drive (suc n) outcome q)
  unfolding worker_move publish
  drive_built n q item w r p e =
      let q' : RxQueue = record q {
        seed = item.seed;
        state = idle;
        sent = q.sent + 1;
        worker = waiting;
      } in
      rw (drive_move n q q' (ground arith)) (drive_idle n q' q.seed (ground arith))

  drive_building :
      (n : ℕ) (q : RxQueue) (item : Item) (st : Storage)
      → q.worker ≡ building item
      → q.request ≡ none
      → q.state ≡ pending
      → item.seed ≡ q.seed
      → q.storage ≡ some st
      → Served q.seed (drive (suc (suc n)) outcome q)
  unfolding worker_move finish
  drive_building n q item st w r p e s =
      let st' = RxBasicStorage.init st item.seed (outcome (suc n)).0 (outcome (suc n)).1 in
      let q' : RxQueue = record q { storage = some st'; worker = built item } in
      rw (drive_move (suc n) q q' (ground arith)) (drive_built n q' item refl r p e)

  drive_waiting :
      (n : ℕ) (q : RxQueue) (item : Item) (st : Storage)
      → q.worker ≡ waiting
      → q.request ≡ some item
      → q.state ≡ pending
      → item.seed ≡ q.seed
      → q.storage ≡ some st
      → Served q.seed (drive (suc (suc (suc n))) outcome q)
  unfolding worker_move wake
  drive_waiting n q item st w r p e s =
      let q' : RxQueue = record q { request = none; worker = building item } in
      rw (drive_move (suc (suc n)) q q' (ground arith))
        (drive_building n q' item st refl refl p e s)

  -- A request waits behind a build.
  drive_superseded :
      (n : ℕ) (q : RxQueue) (old item : Item) (st : Storage)
      → q.worker ≡ built old
      → q.request ≡ some item
      → q.state ≡ pending
      → item.seed ≡ q.seed
      → q.storage ≡ some st
      → Served q.seed (drive (suc (suc (suc (suc n)))) outcome q)
  unfolding worker_move publish
  drive_superseded n q old item st w r p e s =
      let q' : RxQueue = record q { worker = waiting } in
      rw (drive_move (suc (suc (suc n))) q q' (ground arith))
        (drive_waiting n q' item st refl r p e s)

  drive_superseding :
      (n : ℕ) (q : RxQueue) (old item : Item) (st : Storage)
      → q.worker ≡ building old
      → q.request ≡ some item
      → q.state ≡ pending
      → item.seed ≡ q.seed
      → q.storage ≡ some st
      → Served q.seed (drive (suc (suc (suc (suc (suc n))))) outcome q)
  unfolding worker_move finish
  drive_superseding n q old item st w r p e s =
      let k = suc (suc (suc (suc n))) in
      let st' = RxBasicStorage.init st old.seed (outcome k).0 (outcome k).1 in
      let q' : RxQueue = record q { storage = some st'; worker = built old } in
      rw (drive_move k q q' (ground arith)) (drive_superseded n q' old item st' refl r p e refl)

-- The cases that the invariant leaves, by what the fields hold.
drive_cases :
    (outcome : ℕ → Bool × Bool) (n : ℕ) (q : RxQueue) (w : Worker) (r : Option Item)
    (s : Option Storage)
    → q.worker ≡ w
    → q.request ≡ r
    → q.storage ≡ s
    → q.state ≡ pending
    → Requested r w q.seed
    → Stored s
    → Served q.seed (drive (suc (suc (suc (suc (suc n))))) outcome q)
drive_cases outcome n q w r none ew er es p h k = elim k [ ]
drive_cases outcome n q waiting none (some st) ew er es p h k = elim h [ ]
drive_cases outcome n q ended none (some st) ew er es p h k = elim h [ ]
drive_cases outcome n q (building item) none (some st) ew er es p h k =
    drive_building outcome (suc (suc (suc n))) q item st ew er p h es
drive_cases outcome n q (built item) none (some st) ew er es p h k =
    drive_built outcome (suc (suc (suc (suc n)))) q item ew er p h
drive_cases outcome n q waiting (some item) (some st) ew er es p h k =
    drive_waiting outcome (suc (suc n)) q item st ew er p h es
drive_cases outcome n q (building old) (some item) (some st) ew er es p h k =
    drive_superseding outcome n q old item st ew er p h es
drive_cases outcome n q (built old) (some item) (some st) ew er es p h k =
    drive_superseded outcome (suc n) q old item st ew er p h es
drive_cases outcome n q ended (some item) (some st) ew er es p h k = elim h [ ]

-- Wherever the background thread stands when a request is pending, five moves of it bring the queue
-- back to idle with the seed asked for, whatever the builds meet.
pub drive-Served :
    (outcome : ℕ → Bool × Bool) (n : ℕ) (q : RxQueue)
    → Inv q
    → q.state ≡ pending
    → Served q.seed (drive (suc (suc (suc (suc (suc n))))) outcome q)
drive-Served outcome n q v p =
    let h = rw p at v in
    drive_cases outcome n q q.worker q.request q.storage refl refl refl p h.0 h.1
