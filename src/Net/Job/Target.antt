-- ===== src/Net/Job/Target.antt =====
-- Job.cpp: targets and difficulties.
use native.Mathlib.Nat.{div-mul-le_self, div-add-mod', mod-lt}
use native.Mathlib.Numerals.{unary_clauses}
use rxs_supported.Common.{
  ℕ, zero, suc, ◌+◌, ◌-◌, ◌*◌, ◌/◌, ◌%◌, ◌^◌, ◌≤◌, ◌<◌, List, [], ◌∷◌, Bool, true, false, ◌==◌,
  if◌then◌else◌, Option, none, some, length, All, ◌≡◌, refl, arith, Bool-cases, Option-cases, inl,
  inr,
}
use rxs_supported.Tools.Cvt.{from_hex}
use rxs_supported.Tools.Cvt.Decode.{decode, decode-bytes, hex2bin-decode}
use rxs_supported.Net.Job.{
  Job, to_diff, set_target, parse_target, raw_target, hex_buffer, little_endian, rx_yada, set_diff,
}
use rxs_supported.Net.Job.Strtoull.{strtoull-Word}

abbrev Bytes : List ℕ → Type 0
Bytes = All (λ b. b < 256)

-- A text that is refused leaves no bytes, and one that is read leaves bytes.
refused_or_read :
    (refused : Bool) (o : Option (List ℕ))
    → ((bytes : List ℕ) → o ≡ some bytes → Bytes bytes)
    → Bytes (elim (if refused then none else o) [ none ↦ [] | some bytes ↦ bytes ])
refused_or_read true o k = tt
refused_or_read false none k = tt
refused_or_read false (some bytes) k = k bytes refl

hex_buffer-Bytes : (text : List ℕ) → Bytes text → Bytes (hex_buffer text)
unfolding from_hex
hex_buffer-Bytes text h =
    let n = length text / 2 in
    rw (hex_buffer, hex2bin-decode n text h)
      (refused_or_read (length text == 0) (decode n text) (λ bytes. decode-bytes n text bytes h))

little_endian-Below : (bytes : List ℕ) → Bytes bytes → little_endian bytes < 256 ^ length bytes
little_endian-Below [] h = omega arith
little_endian-Below (b ∷ bytes) (p, h) =
    simp unary_clauses (omega (arith, little_endian-Below bytes h))

raw_target-Word : (raw : List ℕ) (t : ℕ) → Bytes raw → raw_target raw ≡ some t → t < 2 ^ 64
unfolding raw_target
raw_target-Word raw t h e = ground (
  arith,
  little_endian-Below raw h,
  div-mul-le_self 0xffff_ffff_ffff_ffff (0xffff_ffff / little_endian raw),
)

parse_target-Word :
    (algorithm : ℕ) (text : List ℕ) (t : ℕ)
    → Bytes text
    → parse_target algorithm text ≡ some t
    → t < 2 ^ 64
unfolding parse_target
parse_target-Word algorithm text t h e = elim (Bool-cases (algorithm == rx_yada)) [
  | inl y ↦ ground (arith, strtoull-Word text, y)
  | inr n ↦ raw_target-Word (hex_buffer text) t (hex_buffer-Bytes text h) (rw n at e)
]

quotient_lem :
    (q t rest : ℕ)
    → q * t + rest ≡ 2 ^ 64 - 1
    → rest < t
    → t < 2 ^ 64
    → (0 < q) × (q * t ≤ 2 ^ 64 - 1) × (2 ^ 64 - 1 < (q + 1) * t)
quotient_lem zero t rest e h k = absurd (omega arith)
quotient_lem (suc q) t rest e h k = (omega arith, omega arith, grind arith)

-- The difficulty of a target: a quotient and what it leaves.
to_diff_lem :
    (t : ℕ)
    → 0 < t
    → t < 2 ^ 64
    → (0 < to_diff t) × (to_diff t * t ≤ 2 ^ 64 - 1) × (2 ^ 64 - 1 < (to_diff t + 1) * t)
to_diff_lem t p h =
    let r = div-add-mod' 0xffff_ffff_ffff_ffff t in
    let l = mod-lt 0xffff_ffff_ffff_ffff p in
    let q = quotient_lem (0xffff_ffff_ffff_ffff / t) t (0xffff_ffff_ffff_ffff % t) in
    ground (arith, q)

-- A target that is taken is a uint64_t other than 0, and its difficulty is not 0 and is the number of
-- times that the target goes into 2 ^ 64 - 1.
pub set_target-Accepted :
    (text : List ℕ) (j j' : Job)
    → All (λ c. c < 256) text
    → set_target (some text) j ≡ some (true, j')
    → (0 < j'.target)
      × (j'.target < 2 ^ 64)
      × (0 < j'.diff)
      × (j'.diff * j'.target ≤ 2 ^ 64 - 1)
      × (2 ^ 64 - 1 < (j'.diff + 1) * j'.target)
unfolding set_target
set_target-Accepted text j j' h e = elim (Option-cases (parse_target j.algorithm text)) [
  | inl n ↦ absurd (ground (arith, n))
  | inr (t, s) ↦ let w = parse_target-Word j.algorithm text t h s in ground (arith, to_diff_lem t)
]

-- At the target that is set for a difficulty other than 0, a hash below the target times the difficulty
-- is below 2 ^ 64.
set_diff-Target :
    (diff hash : ℕ) (j : Job) → 0 < diff → hash < (set_diff diff j).target → hash * diff < 2 ^ 64
unfolding set_diff
set_diff-Target diff hash j p h = let r = div-mul-le_self 0xffff_ffff_ffff_ffff diff in grind arith

-- Where the algorithm is not RX_YADA, a target of four zero bytes is divided by: the text `00000000`,
-- which a pool can send, ends the program.
set_target_zero :
    (text : List ℕ) (j : Job)
    → (j.algorithm == rx_yada) ≡ false
    → 4 ≤ length text
    → from_hex text ≡ some (0 ∷ 0 ∷ 0 ∷ 0 ∷ [])
    → set_target (some text) j ≡ none
unfolding set_target parse_target raw_target
set_target_zero text j n l e = ground (arith, n, e)
