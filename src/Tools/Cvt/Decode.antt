-- ===== src/Tools/Cvt/Decode.antt =====
-- Cvt.cpp: `cvt_hex2bin` against a reader of hexadecimal digits that is written with tests.
use Prim.Native.Nat.{bit_or}
use mathlib.Core.Option
use mathlib.Core.List.{append_assoc, append-nil}
use rxs_supported.Common.{
  ℕ, zero, suc, ◌+◌, ◌-◌, ◌*◌, ◌<◌, List, [], ◌∷◌, ◌++◌, Bool, true, false, not, ltb, leb, ◌==◌,
  ◌||◌, ◌&&◌, if◌then◌else◌, Option, none, some, length, length-append, All, ◌≡◌, refl, ap, ◌∙◌,
  arith, all_below, all_below-true, Bool-cases, inl, inr,
}
use rxs_supported.Common.Bits.{bit_or-shifted}
use rxs_supported.Tools.Cvt.{u8, no_digit, val, hex2bin_loop, hex2bin_end, hex2bin}

abbrev between : ℕ → ℕ → ℕ → Bool
between lo hi c = leb lo c && leb c hi

unfoldable pub is_hex : ℕ → Bool
is_hex c = between b'0' b'9' c || between b'A' b'F' c || between b'a' b'f' c

unfoldable pub value : ℕ → ℕ
value c = if leb c b'9' then c - b'0' else if leb c b'F' then c - b'A' + 10 else c - b'a' + 10

-- Pairs of digits, at most `n` of them.
unfoldable pub decode : ℕ → List ℕ → Option (List ℕ)
decode n [] = some []
decode n (c ∷ []) = none
decode zero (c ∷ d ∷ cs) = none
decode (suc n) (c ∷ d ∷ cs) =
    if is_hex c && is_hex d
    then Option.map (λ bytes. (value c * 16 + value d) ∷ bytes) (decode n cs)
    else none

abbrev bool_eq : Bool → Bool → Bool
bool_eq true b = b
bool_eq false b = not b

no_digit_table : all_below 256 (λ c. bool_eq (no_digit c) (not (is_hex c))) ≡ true
unfolding all_below no_digit is_hex
no_digit_table = refl

val_table :
    all_below 256 (λ c. if is_hex c then val c == value c && ltb (value c) 16 else true) ≡ true
unfolding all_below val is_hex value
val_table = refl

bool_eq-true : (a b : Bool) → bool_eq a b ≡ true → a ≡ b
bool_eq-true a b h = ground arith

no_digit_lem : (c : ℕ) → c < 256 → no_digit c ≡ not (is_hex c)
no_digit_lem c h = bool_eq-true _ _ (all_below-true 256 _ c no_digit_table h)

val_lem : (c : ℕ) → c < 256 → is_hex c ≡ true → (val c ≡ value c) × (value c < 16)
val_lem c h d = ground (
  arith,
  all_below-true 256 (λ c. if is_hex c then val c == value c && ltb (value c) 16 else true) c
      val_table h,
)

pair_lem :
    (c d : ℕ)
    → c < 256
    → d < 256
    → is_hex c ≡ true
    → is_hex d ≡ true
    → bit_or (u8 (val c * 16)) (val d) ≡ value c * 16 + value d
pair_lem c d hc hd dc dd =
    ground (arith, val_lem c hc dc, val_lem d hd dd, bit_or-shifted 4 (value c) (value d))

map-append_cons :
    (bin : List ℕ) (v : ℕ) (o : Option (List ℕ))
    → Option.map (λ t. (bin ++ v ∷ []) ++ t) o
      ≡ Option.map (λ t. bin ++ t) (Option.map (λ t. v ∷ t) o)
map-append_cons bin v none = refl
map-append_cons bin v (some t) = ap some (append_assoc bin (v ∷ []) t)

has_room : (m n : ℕ) → leb (m + suc n) m ≡ false
has_room m n = ground arith

loop_pair :
    (maxlen : ℕ) (bin : List ℕ) (c d : ℕ) (cs : List ℕ)
    → c < 256
    → d < 256
    → is_hex c ≡ true
    → is_hex d ≡ true
    → leb maxlen (length bin) ≡ false
    → hex2bin_loop maxlen bin none (c ∷ d ∷ cs)
      ≡ hex2bin_loop maxlen (bin ++ (value c * 16 + value d) ∷ []) none cs
unfolding hex2bin_loop
loop_pair maxlen bin c d cs hc hd dc dd room =
    rw (no_digit_lem c hc, dc, room, no_digit_lem d hd, dd, pair_lem c d hc hd dc dd)

loop_no_digit :
    (maxlen : ℕ) (bin : List ℕ) (c d : ℕ) (cs : List ℕ)
    → c < 256
    → d < 256
    → (is_hex c && is_hex d) ≡ false
    → hex2bin_end (hex2bin_loop maxlen bin none (c ∷ d ∷ cs)) ≡ none
unfolding hex2bin_loop hex2bin_end
loop_no_digit maxlen bin c d cs hc hd e = ground (arith, no_digit_lem c hc, no_digit_lem d hd)

-- The loop between two pairs, with `n` bytes of room left.
loop_decode :
    (maxlen : ℕ) (bin : List ℕ) (n : ℕ) (cs : List ℕ)
    → maxlen ≡ length bin + n
    → All (λ c. c < 256) cs
    → hex2bin_end (hex2bin_loop maxlen bin none cs)
      ≡ Option.map (λ bytes. bin ++ bytes) (decode n cs)
unfolding decode
loop_decode maxlen bin n [] r h = unfold hex2bin_loop hex2bin_end in ground (arith, append-nil bin)
loop_decode maxlen bin n (c ∷ []) r h = unfold hex2bin_loop hex2bin_end in ground arith
loop_decode maxlen bin zero (c ∷ d ∷ cs) r h = unfold hex2bin_loop hex2bin_end in ground arith
loop_decode maxlen bin (suc n) (c ∷ d ∷ cs) r (hc, (hd, h)) =
    elim (Bool-cases (is_hex c && is_hex d)) [
      | inr e ↦ rw (e, loop_no_digit maxlen bin c d cs hc hd e)
      | inl e ↦
          let v = value c * 16 + value d in
          rw
            (
              e,
              loop_pair maxlen bin c d cs hc hd (ground arith) (ground arith) (ground arith),
              loop_decode maxlen (bin ++ v ∷ []) n cs (omega (arith, length-append bin (v ∷ []))) h,
            )
            (map-append_cons bin v (decode n cs))
    ]

map-id : (o : Option (List ℕ)) → Option.map (λ t. t) o ≡ o
map-id none = refl
map-id (some t) = refl

-- On bytes, the branch-free decoder accepts exactly the texts that are pairs of hexadecimal digits
-- with room for the bytes, in either case of the letters, and gives the bytes that they stand for.
pub hex2bin-decode :
    (maxlen : ℕ) (hex : List ℕ) → All (λ c. c < 256) hex → hex2bin maxlen hex ≡ decode maxlen hex
unfolding hex2bin
hex2bin-decode maxlen hex h =
    loop_decode maxlen [] maxlen hex (omega arith) h ∙ map-id (decode maxlen hex)

cons-bytes :
    (v : ℕ) (o : Option (List ℕ)) (bytes : List ℕ)
    → v < 256
    → ((t : List ℕ) → o ≡ some t → All (λ b. b < 256) t)
    → Option.map (λ t. v ∷ t) o ≡ some bytes
    → All (λ b. b < 256) bytes
cons-bytes v none bytes h k e = absurd (ground arith)
cons-bytes v (some t) [] h k e = absurd (ground arith)
cons-bytes v (some t) (b ∷ bytes) h k e = (ground arith, k bytes (ground arith))

-- What is decoded is bytes.
pub decode-bytes :
    (n : ℕ) (hex bytes : List ℕ)
    → All (λ c. c < 256) hex
    → decode n hex ≡ some bytes
    → All (λ b. b < 256) bytes
unfolding decode
decode-bytes n [] [] h e = tt
decode-bytes n [] (b ∷ bytes) h e = absurd (ground arith)
decode-bytes n (c ∷ []) bytes h e = absurd (ground arith)
decode-bytes zero (c ∷ d ∷ cs) bytes h e = absurd (ground arith)
decode-bytes (suc n) (c ∷ d ∷ cs) bytes (hc, (hd, h)) e = elim (Bool-cases (is_hex c && is_hex d)) [
  | inr x ↦ absurd (ground (arith, x))
  | inl x ↦
      let small : value c * 16 + value d < 256 =
        omega (arith, (val_lem c hc (ground arith)).1, (val_lem d hd (ground arith)).1) in
      cons-bytes (value c * 16 + value d) (decode n cs) bytes small (λ t. decode-bytes n cs t h)
        (rw x at e)
]
