-- ===== src/Crypto/Algorithm/Tests.antt =====
-- Names of algorithms.
use rxs_supported.Common.{ℕ, List, [], ◌∷◌, some, map, ◌≡◌, refl}
use rxs_supported.Crypto.Algorithm.{aliases, ascii_lower, rx_wow, parse, search, ci_compare}
use rxs_supported.Crypto.Algorithm.Search.{parse-find, find, or_invalid}

-- `RX/wow`.
abbrev name : List ℕ
name = b'R' ∷ b'X' ∷ b'/' ∷ b'w' ∷ b'o' ∷ b'w' ∷ []

parse-name : parse name ≡ some rx_wow
unfolding parse search ci_compare
parse-name = refl

parse-find_example : parse name ≡ some (or_invalid (find (map ascii_lower name) aliases))
parse-find_example = parse-find name
