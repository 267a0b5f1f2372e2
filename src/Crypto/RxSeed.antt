-- ===== src/Crypto/RxSeed.antt =====
-- crypto/rx/RxSeed.h: the algorithm and the seed that a dataset is built from.
use rxs_supported.Common.{ℕ, Bool, true, false, ◌&&◌, ◌||◌, ◌==◌, ◌≡◌, arith}

-- Algorithm::RX_0, Algorithm::RX_V2, and any other id.
pub data Algorithm : Type 0 where
  rx_0 rx_v2 : Algorithm
  other : (id : ℕ) → Algorithm

-- Algorithm::operator==.
abbrev pub algorithm_eq : Algorithm → Algorithm → Bool
algorithm_eq rx_0 rx_0 = true
algorithm_eq rx_v2 rx_v2 = true
algorithm_eq (other a) (other b) = a == b
algorithm_eq _ _ = false

abbrev is_rx_0 : Algorithm → Bool
is_rx_0 rx_0 = true
is_rx_0 _ = false

abbrev is_rx_v2 : Algorithm → Bool
is_rx_v2 rx_v2 = true
is_rx_v2 _ = false

-- The seed's bytes are read as one number.
pub record RxSeed : Type 0 where
  pub algorithm : Algorithm
  pub bytes : ℕ

unfoldable pub is_equal_seed_algo : Algorithm → Algorithm → Bool
is_equal_seed_algo a b = algorithm_eq a b || (is_rx_0 a && is_rx_v2 b) || (is_rx_v2 a && is_rx_0 b)

unfoldable pub is_equal : RxSeed → RxSeed → Bool
unfolding is_equal_seed_algo
is_equal s t = is_equal_seed_algo s.algorithm t.algorithm && s.bytes == t.bytes

pub is_equal_refl : (s : RxSeed) → is_equal s s ≡ true
unfolding is_equal
is_equal_refl s = ground arith

-- Comparing two seeds is an equivalence, although it puts two algorithms together.
pub is_equal_trans :
    (s t u : RxSeed) → is_equal s t ≡ true → is_equal t u ≡ true → is_equal s u ≡ true
unfolding is_equal
is_equal_trans s t u p q = ground arith

pub is_equal_sym : (s t : RxSeed) → is_equal s t ≡ true → is_equal t s ≡ true
unfolding is_equal
is_equal_sym s t p = ground arith
