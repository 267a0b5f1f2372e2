-- ===== src/Tools/Hashrate/Calls.antt =====
-- Hashrate.cpp: the rates of all threads after any calls of addData.
use mathlib.Core.Option
use rxs_supported.Common.{
  ℕ, ◌+◌, ◌<◌, List, [], ◌∷◌, Bool, true, false, ◌&&◌, ltb, leb, ◌==◌, if◌then◌else◌, Option, none,
  some, ◌≡◌, refl, ap, sym, ◌∙◌, arith, Bool-cases, inl, inr, if_elim,
}
use rxs_supported.Tools.Hashrate.{
  Ring, Hashrate, new_hashrate, push, update, Rate, sub64, add_data, hashrate,
}
use rxs_supported.Tools.Hashrate.Window.{Sample, filled, window_rate, ring_rate-window}

pub record Call : Type 0 where
  pub index : ℕ
  pub sample : Sample

-- An object for so many threads after these calls, the latest first.
unfoldable pub run : ℕ → List Call → Option Hashrate
run threads [] = some (new_hashrate threads)
run threads (c ∷ cs) = elim (run threads cs) [
  | none ↦ none
  | some h ↦ add_data c.index c.sample.count c.sample.stamp h
]

-- The calls are for threads that there are.
unfoldable pub in_range : ℕ → List Call → Bool
in_range threads [] = true
in_range threads (c ∷ cs) = ltb c.index (threads + 1) && in_range threads cs

-- The samples of one thread.
unfoldable pub samples : ℕ → List Call → List Sample
samples i [] = []
samples i (c ∷ cs) = if i == c.index then c.sample ∷ samples i cs else samples i cs

record Filled (threads : ℕ) (cs : List Call) (h : Hashrate) : Type 0 where
  size : h.threads ≡ threads + 1
  rings : (i : ℕ) → h.rings i ≡ filled (samples i cs)

Gives : ℕ → List Call → Option Hashrate → Type 0
Gives threads cs o = (h : Hashrate) × (o ≡ some h) × Filled threads cs h

add-ring :
    (c : Call) (cs : List Call) (rings : ℕ → Ring) (i : ℕ)
    → ((i' : ℕ) → rings i' ≡ filled (samples i' cs))
    → update c.index (push c.sample.count c.sample.stamp (rings c.index)) rings i
      ≡ filled (samples i (c ∷ cs))
unfolding samples filled
add-ring c cs rings i f = elim (Bool-cases (i == c.index)) [
  | inl y ↦ let e : i ≡ c.index = ground arith in rw (y, sym e, f i) refl
  | inr y ↦ rw y (f i)
]

add-Gives :
    (threads : ℕ) (c : Call) (cs : List Call) (h : Hashrate)
    → Filled threads cs h
    → ltb c.index (threads + 1) ≡ true
    → Gives threads (c ∷ cs) (add_data c.index c.sample.count c.sample.stamp h)
unfolding add_data Gives
add-Gives threads c cs h f l =
    let ring = λ (i : ℕ). add-ring c cs h.rings i f.rings in
    let first : ltb c.index h.threads ≡ true = ap (ltb c.index) f.size ∙ l in
    rw first (
      if_elim (Gives threads (c ∷ cs)) (c.index == 0)
        (_, refl, record { size = f.size; rings = ring })
        (_, refl, record { size = f.size; rings = ring }))

run-Gives :
    (threads : ℕ) (cs : List Call) → in_range threads cs ≡ true → Gives threads cs (run threads cs)
unfolding run in_range samples Gives filled new_hashrate
run-Gives threads [] e = (new_hashrate threads, refl, record { size = refl; rings = λ i. refl })
run-Gives threads (c ∷ cs) e =
    let (h, s, f) = run-Gives threads cs (ground arith) in
    rw s (add-Gives threads c cs h f (ground arith))

unfoldable pub rate_after : ℕ → ℕ → ℕ → ℕ → List Call → Option Rate
rate_after threads now i ms cs = Option.map (hashrate now i ms) (run threads cs)

-- After any calls of addData for threads that there are, the rate of each such thread is there, and it is
-- the rate of the samples of that thread.
pub hashrate-window :
    (threads now i ms : ℕ) (cs : List Call)
    → in_range threads cs ≡ true
    → i < threads + 1
    → rate_after threads now i ms cs ≡ some (window_rate 4095 (sub64 now ms) (samples i cs))
unfolding rate_after hashrate Gives
hashrate-window threads now i ms cs e l =
    let (h, s, f) = run-Gives threads cs e in
    let there : leb h.threads i ≡ false = ap (λ n. leb n i) f.size ∙ ground arith in
    ap (Option.map (hashrate now i ms)) s
    ∙ ap some (rw (there, f.rings i) (ring_rate-window now ms (samples i cs)))
