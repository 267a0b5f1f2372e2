-- ===== src/Crypto/RxBasicStorage.antt =====
-- crypto/rx/RxBasicStorage.cpp: one dataset, built for one seed at a time.
use rxs_supported.Common.{Bool, true, false, ◌&&◌, if◌then◌else◌, ◌≡◌, arith}
use rxs_supported.Crypto.RxSeed.{RxSeed, Algorithm, is_equal}

-- `has_dataset` says that `m_dataset` is not null.
pub record Storage : Type 0 where
  pub ready : Bool
  pub allocated : Bool
  pub has_dataset : Bool
  pub seed : RxSeed

-- A default constructed seed; its algorithm is Algorithm::INVALID.
abbrev pub no_seed : RxSeed
no_seed = record { algorithm = Algorithm.other 0; bytes = 0 }

abbrev pub new_storage : Storage
new_storage = record { ready = false; allocated = false; has_dataset = false; seed = no_seed }

-- `RxAlgo::apply` sets up tables of the RandomX library and is not followed.
abbrev set_seed : Storage → RxSeed → Storage
set_seed st seed = record st { ready = false; seed = seed }

-- `cache` is whether the memory for the cache could be had.
abbrev create_dataset : Storage → Bool → Storage
create_dataset st true = record st { has_dataset = true; allocated = true }
create_dataset st false = record st { has_dataset = false; allocated = false }

-- `built` is the result of RxDataset::init.
abbrev init_dataset : Storage → Bool → Storage
init_dataset st built = record st { ready = built }

unfoldable pub init : Storage → RxSeed → Bool → Bool → Storage
init st seed cache built =
    let st' = set_seed st seed in
    if st'.has_dataset
    then init_dataset st' built
    else if cache
    then init_dataset (create_dataset st' true) built
    else create_dataset st' false

-- RxBasicStorage::dataset hands the dataset out only for the seed that it was built for.
unfoldable pub dataset : Storage → RxSeed → Bool
dataset st job = st.ready && is_equal st.seed job && st.has_dataset

pub init-seed :
    (st : Storage) (seed : RxSeed) (cache built : Bool) → (init st seed cache built).seed ≡ seed
unfolding init
init-seed st seed cache built = ground arith
