-- ===== src/Tools/Hashrate/Tests.antt =====
-- Rates of hashes, at fixed inputs.
use rxs_supported.Common.{ℕ, List, [], ◌∷◌, some, ◌≡◌, refl, arith}
use rxs_supported.Tools.Hashrate.{rate, unavailable, sub64}
use rxs_supported.Tools.Hashrate.Window.{window_rate, walk, between}
use rxs_supported.Tools.Hashrate.Calls.{Call, in_range, samples, rate_after, hashrate-window}

abbrev add : ℕ → ℕ → ℕ → Call
add index count stamp = record { index = index; sample = record { count = count; stamp = stamp } }

-- Two threads; the samples of the second at the times 1000, 2000 and 3000.
abbrev calls : List Call
calls = add 2 900 3000 ∷ add 1 50 3000 ∷ add 2 500 2000 ∷ add 2 100 1000 ∷ []

window : window_rate 4095 1500 (samples 2 calls) ≡ rate 400 1000
unfolding window_rate samples walk between
window = refl

other : window_rate 4095 1500 (samples 1 calls) ≡ unavailable
unfolding window_rate samples walk
other = refl

hashrate-window_example :
    rate_after 2 3500 2 2000 calls ≡ some (window_rate 4095 (sub64 3500 2000) (samples 2 calls))
unfolding in_range
hashrate-window_example = hashrate-window 2 3500 2 2000 calls refl (omega arith)
