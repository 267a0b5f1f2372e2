-- ===== src/Crypto/RxQueue/Tests.antt =====
-- RxQueue.cpp at concrete histories.
use rxs_supported.Common.{[], none, some, Bool, true, false, ◌≡◌, ◌≢◌, refl}
use rxs_supported.Crypto.RxSeed.{rx_0, rx_v2, is_equal}
use rxs_supported.Crypto.RxBasicStorage.{Storage}
use rxs_supported.Crypto.RxBasicStorage
use rxs_supported.Crypto.RxQueue.{
  RxQueue, Item, pending, waiting, building, new_queue, is_idle, enqueue, is_ready, wake, finish,
  publish, worker_move, drive, Reach, start, enqueues, moves, wakes, finishes, publishes,
}
use rxs_supported.Crypto.RxQueue.Invariant.{Reach-Inv, Reach-safe, is_ready_sound}
use rxs_supported.Crypto.RxQueue.Drain.{Served, drive-Served}

abbrev item : Item
item = record {
  seed = record { algorithm = rx_0; bytes = 7 };
  nodeset = [];
  threads = 4;
  huge_pages = true;
  one_gb_pages = false;
  mode = 0;
  priority = 1;
}

-- The same data set, asked for under the other algorithm.
abbrev same : Item
same = record item { seed = record { algorithm = rx_v2; bytes = 7 } }

asked_once : RxQueue
asked_once = enqueue new_queue item

built_once : RxQueue
built_once = drive 5 (λ n. (true, true)) asked_once

ready_test : (is_ready built_once same.seed ≡ true) × (is_ready asked_once item.seed ≡ false)
unfolding built_once asked_once enqueue is_ready is_equal drive worker_move wake finish publish
    RxBasicStorage.init
ready_test = (refl, refl)

asked_once-Reach : Reach asked_once
unfolding asked_once
asked_once-Reach = enqueues start item refl

built_once-Reach : Reach built_once
unfolding built_once asked_once enqueue drive worker_move wake finish publish RxBasicStorage.init
built_once-Reach =
    moves
      (moves (moves (enqueues start item refl) (wakes refl refl refl))
        (finishes item true true refl refl))
      (publishes item refl)

Reach-safe_example :
    (asked_once.worker ≡ waiting → is_idle asked_once.state ≡ false → wake asked_once ≢ none)
    × ((i : Item) (cache done : Bool)
        → asked_once.worker ≡ building i
        → finish asked_once i cache done ≢ none)
Reach-safe_example = Reach-safe asked_once asked_once-Reach

is_ready_sound_example :
    (built_once.worker ≡ waiting)
    × (built_once.request ≡ none)
    × ((st : Storage) × (built_once.storage ≡ some st) × (is_equal st.seed same.seed ≡ true))
is_ready_sound_example = is_ready_sound built_once same.seed built_once-Reach ready_test.0

asked_once-pending : asked_once.state ≡ pending
unfolding asked_once enqueue
asked_once-pending = refl

drive-Served_example : Served asked_once.seed (drive 5 (λ n. (false, false)) asked_once)
drive-Served_example =
    drive-Served (λ n. (false, false)) 0 asked_once (Reach-Inv asked_once-Reach) asked_once-pending
