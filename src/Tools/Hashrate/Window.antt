-- ===== src/Tools/Hashrate/Window.antt =====
-- Hashrate.cpp: the rate of a ring is that of the samples that were added, in a window of time.
use native.Mathlib.Nat.{mod-lt}
use rxs_supported.Common.{
  ℕ, zero, suc, ◌+◌, ◌-◌, ◌%◌, ◌<◌, List, [], ◌∷◌, Bool, true, false, not, ◌||◌, ltb, ◌==◌,
  if◌then◌else◌, ◌≡◌, refl, ap, ◌∙◌, arith, Bool-cases, inl, inr, drop, suc-ne-zero, if_elim,
}
use rxs_supported.Tools.Hashrate.{
  Ring, new_ring, push, Rate, unavailable, idle, rate, sub64, Found, scan, judge, ring_rate,
}

pub record Sample : Type 0 where
  pub count : ℕ
  pub stamp : ℕ

abbrev pub no_sample : Sample
no_sample = record { count = 0; stamp = 0 }

-- A sample by its age; before the first there are zeros.
abbrev pub nth : ℕ → List Sample → Sample
nth k [] = no_sample
nth zero (s ∷ h) = s
nth (suc k) (s ∷ h) = nth k h

-- Where a ring holds the sample of this age.
abbrev pub place : Ring → ℕ → ℕ
place r k = (r.top + 8191 - k) % 4096

Holds : Ring → List Sample → ℕ → Type 0
Holds r h k = (r.counts (place r k) ≡ (nth k h).count) × (r.stamps (place r k) ≡ (nth k h).stamp)

record Ages (r : Ring) (h : List Sample) : Type 0 where
  top : r.top < 4096
  holds : (k : ℕ) → k < 4096 → Holds r h k

-- A ring after samples were added, the latest first.
unfoldable pub filled : List Sample → Ring
filled [] = new_ring
filled (s ∷ h) = push s.count s.stamp (filled h)

push-Holds :
    (r : Ring) (h : List Sample) (s : Sample) (k : ℕ)
    → Ages r h
    → k < 4096
    → Holds (push s.count s.stamp r) (s ∷ h) k
unfolding push Holds
push-Holds r h s zero a l =
    let t = a.top in
    let e : ((r.top + 1) % 4096 + 8191 - 0) % 4096 ≡ r.top = omega arith in rw e (ground arith)
push-Holds r h s (suc k) a l =
    let t = a.top in
    let e : ((r.top + 1) % 4096 + 8191 - suc k) % 4096 ≡ (r.top + 8191 - k) % 4096 = omega arith in
    let n : ((r.top + 8191 - k) % 4096 == r.top) ≡ false = ground arith in
    rw (e, n) (a.holds k (omega arith))

filled-Ages : (h : List Sample) → Ages (filled h) h
unfolding filled Holds push
filled-Ages [] = record { top = omega arith; holds = λ k l. (refl, refl) }
filled-Ages (s ∷ h) = record {
  top = mod-lt ((filled h).top + 1) {m = 4096} (omega arith);
  holds = λ k l. push-Holds (filled h) h s k (filled-Ages h) l;
}

-- What a round finds at a sample that is older than the window.
abbrev at_age : ℕ → List Sample → Found
at_age zero h = record { full = not ((nth 0 h).stamp == 0); count = 0; stamp = 0 }
at_age (suc k) h = record {
  full = not ((nth (suc k) h).stamp == 0);
  count = (nth k h).count;
  stamp = (nth k h).stamp;
}

-- The loop, over samples by their age.
ages : ℕ → ℕ → ℕ → List Sample → Found
ages zero limit k h = record { full = false; count = 0; stamp = 0 }
ages (suc rounds) limit k h =
    let more = ages rounds limit (suc k) h in if ltb (nth k h).stamp limit then at_age k h else more

places :
    (r : Ring) (k : ℕ)
    → r.top < 4096
    → k < 4096
    → ((place r k == place r 0) ≡ (k == 0)) × ((place r k + 4096 - 1) % 4096 ≡ place r (suc k))
places r k t l = (ground arith, omega arith)

place_before :
    (r : Ring) (k : ℕ) → r.top < 4096 → suc k < 4096 → (place r (suc k) + 1) % 4096 ≡ place r k
place_before r k t l = omega arith

place_around :
    (r : Ring) (k : ℕ) → r.top < 4096 → k < 4096 → (place r (suc k) == place r 0) ≡ (k == 4095)
place_around r k t l = ground arith

abbrev nothing : Found
nothing = record { full = false; count = 0; stamp = 0 }

scan_step :
    (rounds limit k : ℕ) (r : Ring) (h : List Sample)
    → Ages r h
    → k < 4096
    → scan (suc rounds) limit (place r 0) (place r k) r ≡ (
        if ltb (nth k h).stamp limit
        then at_age k h
        else if k == 4095
        then nothing
        else scan rounds limit (place r 0) (place r (suc k)) r)
unfolding scan Holds
scan_step rounds limit zero r h a l =
    let (same, down) = places r 0 a.top l in
    rw (scan, (a.holds 0 l).1, same, down, place_around r 0 a.top l) refl
scan_step rounds limit (suc k) r h a l =
    let (same, down) = places r (suc k) a.top l in
    let up = place_before r k a.top l in
    rw
      (
        scan,
        (a.holds (suc k) l).1,
        same,
        down,
        place_around r (suc k) a.top l,
        suc-ne-zero k,
        up,
        (a.holds k (omega arith)).0,
        (a.holds k (omega arith)).1,
      )
      refl

scan-ages :
    (rounds limit k : ℕ) (r : Ring) (h : List Sample)
    → Ages r h
    → k + suc rounds ≡ 4096
    → scan (suc rounds) limit (place r 0) (place r k) r ≡ ages (suc rounds) limit k h
unfolding ages
scan-ages zero limit k r h a e =
    let last : (k == 4095) ≡ true = ground arith in
    rw (ages, scan_step 0 limit k r h a (omega arith), last) refl
scan-ages (suc rounds) limit k r h a e =
    let last : (k == 4095) ≡ false = ground arith in
    rw
      (
        ages,
        scan_step (suc rounds) limit k r h a (omega arith),
        last,
        scan-ages rounds limit (suc k) r h a (omega arith),
      )
      refl

-- Of two samples, what the rate between them is; a stamp of 0 is of no sample.
unfoldable pub between : Sample → Sample → Rate
between new old =
    if old.stamp == 0 || new.stamp == 0
    then unavailable
    else if new.count == old.count
    then idle
    else if new.stamp == old.stamp
    then unavailable
    else rate (sub64 new.count old.count) (sub64 new.stamp old.stamp)

-- From a sample in the window on to older ones, of which so many are looked at: the rate from the oldest
-- one in the window, where an older sample shows that the window is filled.
unfoldable pub walk : ℕ → ℕ → Sample → Sample → List Sample → Rate
walk zero limit new s h = unavailable
walk (suc n) limit new s [] = unavailable
walk (suc n) limit new s (t ∷ h) =
    if ltb t.stamp limit
    then (if t.stamp == 0 then unavailable else between new s)
    else walk n limit new t h

-- The rate of all samples that were added, the latest first, in a window that begins at `limit`, where so
-- many samples before the latest are looked at.
unfoldable pub window_rate : ℕ → ℕ → List Sample → Rate
window_rate n limit [] = unavailable
window_rate n limit (s ∷ h) = if ltb s.stamp limit then unavailable else walk n limit s s h

drop-cons :
    (m : ℕ) (xs : List Sample) (s : Sample) (t : List Sample)
    → drop m xs ≡ s ∷ t
    → (nth m xs ≡ s) × (drop (suc m) xs ≡ t)
drop-cons zero [] s t e = absurd (ground arith)
drop-cons zero (x ∷ xs) s t e = ground arith
drop-cons (suc m) [] s t e = absurd (ground arith)
drop-cons (suc m) (x ∷ xs) s t e = drop-cons m xs s t e

drop-nil :
    (m : ℕ) (xs : List Sample) → drop m xs ≡ [] → (nth m xs ≡ no_sample) × (drop (suc m) xs ≡ [])
drop-nil zero [] e = (refl, refl)
drop-nil zero (x ∷ xs) e = absurd (ground arith)
drop-nil (suc m) [] e = (refl, refl)
drop-nil (suc m) (x ∷ xs) e = drop-nil m xs e

not_full :
    (count stamp c s : ℕ)
    → judge count stamp (record { full = false; count = c; stamp = s }) ≡ unavailable
unfolding judge
not_full count stamp c s = refl

full_lem :
    (b : Bool) (new old : Sample)
    → judge new.count new.stamp (record { full = not b; count = old.count; stamp = old.stamp })
      ≡ (if b then unavailable else between new old)
unfolding judge between
full_lem true new old = refl
full_lem false new old = refl

-- After the first sample nothing is found.
empty_lem :
    (n limit m : ℕ) (h : List Sample) (new : Sample)
    → drop (suc m) h ≡ []
    → judge new.count new.stamp (ages n limit (suc m) h) ≡ unavailable
unfolding ages
empty_lem zero limit m h new e = not_full new.count new.stamp 0 0
empty_lem (suc n) limit m h new e =
    let (z, k) = drop-nil (suc m) h e in
    rw (ages, z)
      (if_elim (λ f. judge new.count new.stamp f ≡ unavailable) (ltb 0 limit)
        (not_full new.count new.stamp (nth m h).count (nth m h).stamp)
        (empty_lem n limit (suc m) h new k))

ages-walk :
    (n limit m : ℕ) (h rest : List Sample) (new : Sample)
    → drop (suc m) h ≡ rest
    → judge new.count new.stamp (ages n limit (suc m) h) ≡ walk n limit new (nth m h) rest
unfolding ages walk
ages-walk zero limit m h rest new e = not_full new.count new.stamp 0 0
ages-walk (suc n) limit m h [] new e = empty_lem (suc n) limit m h new e
ages-walk (suc n) limit m h (t ∷ rest) new e =
    let (z, k) = drop-cons (suc m) h t rest e in
    elim (Bool-cases (ltb t.stamp limit)) [
      | inl y ↦ rw (ages, walk, z, y) (full_lem (t.stamp == 0) new (nth m h))
      | inr y ↦
          rw (ages, walk, z, y)
            (ages-walk n limit (suc m) h rest new k ∙ ap (λ x. walk n limit new x rest) z)
    ]

alone :
    (b : Bool) (count stamp : ℕ)
    → judge count stamp (record { full = b; count = 0; stamp = 0 }) ≡ unavailable
unfolding judge
alone true count stamp = refl
alone false count stamp = refl

ages-window :
    (n limit : ℕ) (h : List Sample)
    → judge (nth 0 h).count (nth 0 h).stamp (ages (suc n) limit 0 h) ≡ window_rate n limit h
unfolding ages window_rate
ages-window n limit [] =
    if_elim (λ f. judge 0 0 f ≡ unavailable) (ltb 0 limit) (alone (not (0 == 0)) 0 0)
      (empty_lem n limit 0 [] no_sample refl)
ages-window n limit (s ∷ h) = elim (Bool-cases (ltb s.stamp limit)) [
  | inl y ↦ rw (ages, window_rate, y) (alone (not (s.stamp == 0)) s.count s.stamp)
  | inr y ↦ rw (ages, window_rate, y) (ages-walk n limit 0 (s ∷ h) h s refl)
]

scan-window :
    (n limit : ℕ) (r : Ring) (h : List Sample)
    → Ages r h
    → suc n ≡ 4096
    → judge
        (r.counts (place r 0))
        (r.stamps (place r 0))
        (scan (suc n) limit (place r 0) (place r 0) r)
      ≡ window_rate n limit h
unfolding Holds
scan-window n limit r h a e =
    rw
      (
        scan-ages n limit 0 r h a (omega arith),
        (a.holds 0 (omega arith)).0,
        (a.holds 0 (omega arith)).1,
      )
      (ages-window n limit h)

-- The rate that is computed from a ring, after any samples were added to it, is that of the samples
-- themselves, those of the ring's size that are the latest: from the oldest one in the window to the latest,
-- where an older one shows that the window is filled.
pub ring_rate-window :
    (now ms : ℕ) (h : List Sample) → ring_rate now ms (filled h) ≡ window_rate 4095 (sub64 now ms) h
unfolding ring_rate
ring_rate-window now ms h =
    let e : ((filled h).top + 4096 - 1) % 4096 ≡ place (filled h) 0 = omega arith in
    rw e (scan-window 4095 (sub64 now ms) (filled h) h (filled-Ages h) refl)
