-- ===== src/Tools/BlobReader/Varint.antt =====
-- A varint that `generateHashingBlob` writes is read back by BlobReader.
use Prim.Native.Nat.{bit_and, bit_or}
use rxs_supported.Common.{
  drop-append, ℕ, zero, suc, ◌+◌, ◌*◌, ◌/◌, ◌%◌, ◌^◌, ◌≤◌, ◌<◌, List, [], ◌∷◌, ◌++◌, Bool, true,
  false, not, ◌&&◌, ltb, ◌==◌, if◌then◌else◌, some, get_elem?, take, drop, length, ◌≡◌, refl, ap,
  sym, ◌∙◌, arith, all_below, all_below-true,
}
use native.Mathlib.Decide.{dec_lt}
use native.Mathlib.Numerals.{add-one}
use rxs_supported.Common.Bits.{bit_or-below, two_pow_add_seven}
use rxs_supported.Tools.BlobReader.{
  Reader, ok, get_byte, varint_loop, get_varint, put_varint_loop, put_varint,
}

-- The bytes from the reader's position to its end.
abbrev pub Before : Reader → List ℕ → Type 0
Before r bytes = drop r.index (take r.size r.memory) ≡ bytes

get_elem?-take :
    (n i : ℕ) (xs : List ℕ) (y : ℕ) (ys : List ℕ)
    → drop i (take n xs) ≡ y ∷ ys
    → (get_elem? xs i ≡ some y) × (drop (suc i) (take n xs) ≡ ys) × (i < n)
get_elem?-take zero zero xs y ys e = absurd (ground arith)
get_elem?-take zero (suc i) xs y ys e = absurd (ground arith)
get_elem?-take (suc n) zero [] y ys e = absurd (ground arith)
get_elem?-take (suc n) (suc i) [] y ys e = absurd (ground arith)
get_elem?-take (suc n) zero (x ∷ xs) y ys e = (ground arith, ground arith, omega arith)
get_elem?-take (suc n) (suc i) (x ∷ xs) y ys e =
    let (a, b, c) = get_elem?-take n i xs y ys e in (a, b, omega arith)

pub get_byte-Before :
    (r : Reader) (b : ℕ) (bytes : List ℕ)
    → Before r (b ∷ bytes)
    → (get_byte r ≡ ok (b, record r { index = r.index + 1 }))
      × Before (record r { index = r.index + 1 }) bytes
unfolding get_byte
get_byte-Before r b bytes e =
    let (g, d, l) = get_elem?-take r.size r.index r.memory b bytes e in (ground arith, rw add-one d)

drop-nil : (n : ℕ) → drop {A = ℕ} n [] ≡ []
drop-nil zero = refl
drop-nil (suc n) = refl

drop-drop : (i n : ℕ) (l : List ℕ) → drop (i + n) l ≡ drop n (drop i l)
drop-drop zero n l = ap (λ k. drop k l) (omega arith)
drop-drop (suc i) n [] = drop-nil (suc i + n) ∙ sym (drop-nil n)
drop-drop (suc i) n (x ∷ l) =
    let e : suc i + n ≡ suc (i + n) = omega arith in ap (λ k. drop k (x ∷ l)) e ∙ drop-drop i n l

-- Past the first of the bytes, what follows them stands next.
pub past-Before :
    (r : Reader) (bytes after : List ℕ)
    → Before r (bytes ++ after)
    → Before (record r { index = r.index + length bytes }) after
past-Before r bytes after b =
    rw (drop-drop r.index (length bytes) (take r.size r.memory), b) (drop-append bytes after)

-- The digits of a varint: all but the last have their top bit set.
abbrev pub more_digit : ℕ → ℕ
more_digit b = bit_or (bit_and b 0x7f) 0x80

abbrev digit_ok : ℕ → Bool
digit_ok b =
    bit_and (more_digit b) 0x7f == b % 128
    && not (bit_and (more_digit b) 0x80 == 0)
    && (if ltb b 128 then bit_and b 0x7f == b && bit_and b 0x80 == 0 else true)

digit_table : all_below 256 digit_ok ≡ true
unfolding all_below
digit_table = refl

pub digit_lem :
    (b : ℕ)
    → b < 256
    → (bit_and (more_digit b) 0x7f ≡ b % 128)
      × ((bit_and (more_digit b) 0x80 == 0) ≡ false)
      × (b < 128 → (bit_and b 0x7f ≡ b) × ((bit_and b 0x80 == 0) ≡ true))
digit_lem b h =
    let t = all_below-true 256 digit_ok b digit_table h in
    (ground arith, ground arith, λ l. (ground arith, ground arith))

-- One digit more at a shift that is still defined.
digit_sum :
    (shift result x : ℕ)
    → result < 2 ^ shift
    → x * 2 ^ shift < 2 ^ 64
    → bit_or result (x * 2 ^ shift % 2 ^ 64) ≡ result + x * 2 ^ shift
digit_sum shift result x h k = ground (arith, bit_or-below shift x result h)

loop_last :
    (fuel shift result k : ℕ) (r : Reader) (after : List ℕ)
    → k < 128
    → shift < 64
    → result < 2 ^ shift
    → k * 2 ^ shift < 2 ^ 64
    → Before r (k ∷ after)
    → varint_loop (suc fuel) shift result r
      ≡ ok (result + k * 2 ^ shift, record r { index = r.index + 1 })
unfolding varint_loop
loop_last fuel shift result k r after lt sh rs ks b =
    let (g, _) = get_byte-Before r k after b in
    let (_, _, d) = digit_lem k (omega arith) in
    rw (g, varint_loop, (d lt).0, (d lt).1) (ground (arith, digit_sum shift result k rs ks))

div_mod : (k : ℕ) → k / 128 * 128 + k % 128 ≡ k
div_mod k = omega arith

loop_more :
    (fuel shift result k : ℕ) (r : Reader) (bytes : List ℕ)
    → shift < 64
    → result < 2 ^ shift
    → k % 128 * 2 ^ shift < 2 ^ 64
    → Before r (more_digit (k % 2 ^ 8) ∷ bytes)
    → varint_loop (suc fuel) shift result r
      ≡ varint_loop fuel
          (shift + 7)
          (result + k % 128 * 2 ^ shift)
          (record r { index = r.index + 1 })
unfolding varint_loop
loop_more fuel shift result k r bytes sh rs ks b =
    let (g, _) = get_byte-Before r (more_digit (k % 2 ^ 8)) bytes b in
    let (v, c, _) = digit_lem (k % 2 ^ 8) (omega arith) in
    let w : k % 2 ^ 8 % 128 ≡ k % 128 = omega arith in
    rw (g, varint_loop, v, w, digit_sum shift result (k % 128) rs ks, c) (ground arith)

-- `k` splits into its lowest digit and the rest.
pub split_sum :
    (shift result k : ℕ)
    → result + k % 128 * 2 ^ shift + k / 128 * 2 ^ (shift + 7) ≡ result + k * 2 ^ shift
split_sum shift result k = omega (
  arith,
  two_pow_add_seven shift,
  ap (λ (t : ℕ). k / 128 * t) (two_pow_add_seven shift),
  ap (λ (t : ℕ). t * 2 ^ shift) (div_mod k),
)

pub put_small : (f k : ℕ) → k < 128 → put_varint_loop f k ≡ k ∷ []
unfolding put_varint_loop
put_small zero k h = ground arith
put_small (suc f) k h = ground arith

pub put_large :
    (f k : ℕ)
    → 128 ≤ k
    → put_varint_loop (suc f) k ≡ more_digit (k % 2 ^ 8) ∷ put_varint_loop f (k / 128)
unfolding put_varint_loop
put_large f k h = ground arith

pub digit_below : (k t result : ℕ) → result < t → result + k % 128 * t < 128 * t
digit_below k t result h = grind arith

last_small : (shift k : ℕ) → shift ≡ 63 → k * 2 ^ shift < 2 ^ 64 → k < 128
last_small shift k e h = let h' : k * 2 ^ 63 < 2 ^ 64 = rw e at h in omega arith

loop_put :
    (f fuel shift result k : ℕ) (r : Reader) (after : List ℕ)
    → f ≤ fuel
    → shift + 7 * f ≡ 63
    → result < 2 ^ shift
    → k * 2 ^ shift < 2 ^ 64
    → Before r (put_varint_loop f k ++ after)
    → varint_loop (suc fuel) shift result r
      ≡ ok (result + k * 2 ^ shift, record r { index = r.index + length (put_varint_loop f k) })
loop_put zero fuel shift result k r after le sh rs ks b =
    let lt = last_small shift k (omega arith) ks in
    rw (put_small zero k lt)
      (loop_last fuel shift result k r after lt (omega arith) rs ks (rw (put_small zero k lt) at b))
loop_put (suc f) zero shift result k r after le sh rs ks b = absurd (omega arith)
loop_put (suc f) (suc fuel) shift result k r after le sh rs ks b = elim (dec_lt k 128) [
  | yes lt ↦ rw (put_small (suc f) k lt) (
      loop_last (suc fuel) shift result k r after lt (omega arith) rs ks
        (rw (put_small (suc f) k lt) at b))
  | no ge ↦
      let split = split_sum shift result k in
      let e = put_large f k (omega arith) in
      let b' : Before r (more_digit (k % 2 ^ 8) ∷ (put_varint_loop f (k / 128) ++ after)) =
        rw e at b in
      let (_, b'') =
        get_byte-Before r (more_digit (k % 2 ^ 8)) (put_varint_loop f (k / 128) ++ after) b' in
      rw
        (
          e,
          loop_more (suc fuel) shift result k r (put_varint_loop f (k / 128) ++ after) (omega arith)
              rs (omega arith) b',
        )
        (loop_put f fuel (shift + 7) (result + k % 128 * 2 ^ shift) (k / 128)
            (record r { index = r.index + 1 }) after (omega arith) (omega arith)
            (omega (arith, two_pow_add_seven shift, digit_below k (2 ^ shift) result rs))
            (omega arith) b''
          ∙ ground (arith, split))
]

-- A reader that stands before a varint written for a uint64_t reads that number, and moves just
-- past it.
pub get_varint-put_varint :
    (k : ℕ) (r : Reader) (after : List ℕ)
    → k < 2 ^ 64
    → Before r (put_varint k ++ after)
    → get_varint r ≡ ok (k, record r { index = r.index + length (put_varint k) })
unfolding get_varint put_varint
get_varint-put_varint k r after h b =
    loop_put 9 10 0 0 k r after (omega arith) (omega arith) (omega arith) (omega arith) b
    ∙ ground arith
