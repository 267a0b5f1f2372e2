-- ===== src/Tools/BlobReader/Locality.antt =====
-- BlobReader.h: what a read gives depends only on the bytes that it passes.
use Prim.Native.Nat.{bit_and, bit_or}
use rxs_supported.Common.{
  ℕ, zero, suc, ◌+◌, ◌*◌, ◌%◌, ◌^◌, ◌≤◌, ◌<◌, List, Bool, true, false, ltb, leb, ◌==◌,
  if◌then◌else◌, some, get_elem?, ◌≡◌, refl, ap, sym, ◌∙◌, subst, arith, Bool-cases, Option-cases,
  inl, inr,
}
use rxs_supported.Tools.BlobReader.{
  Reader, Result, ok, rejected, thrown, fault, running, M, ◌>>=◌, pure, index, skip, Span, get_span,
  copy, get_bytes, get_byte, varint_loop, get_varint,
}
use rxs_supported.Tools.BlobReader.Agree.{Agree, copy-Agree}

-- A read that has gone on over the same bytes.
pub record Moves (r r' : Reader) : Type 0 where
  pub memory : r'.memory ≡ r.memory
  pub size : r'.size ≡ r.size
  pub onward : r.index ≤ r'.index
  pub inside : r'.index ≤ r'.size

-- Another reader, with the same bytes up to `n`; its own place does not matter.
pub record Alike (n : ℕ) (r s : Reader) : Type 0 where
  pub bytes : Agree n r.memory s.memory
  pub reach : n ≤ s.size
  pub small : s.size < 2 ^ 63

-- A read that ends well goes on, and does the same at its place in a reader that has the bytes that it
-- passes.
abbrev pub Local : {A : Type 0} → M A → Type 0
Local {A} m =
    (r r' : Reader) (a : A)
    → r.index ≤ r.size
    → r.size < 2 ^ 63
    → m r ≡ ok (a, r')
    → Moves r r'
      × ((s : Reader)
          → Alike r'.index r s
          → m (record s { index = r.index }) ≡ ok (a, record s { index = r'.index }))

-- A read that moves to `k`.
to_place :
    {A : Type 0} (m : M A) (r r' : Reader) (a : A) (k : ℕ)
    → record r { index = k } ≡ r'
    → r.index ≤ k
    → k ≤ r.size
    → ((s : Reader)
        → Alike k r s
        → m (record s { index = r.index }) ≡ ok (a, record s { index = k }))
    → Moves r r'
      × ((s : Reader)
          → Alike r'.index r s
          → m (record s { index = r.index }) ≡ ok (a, record s { index = r'.index }))
to_place m r r' a k e l h f =
    subst
      (λ (t : Reader).
        Moves r t
        × ((s : Reader)
            → Alike t.index r s
            → m (record s { index = r.index }) ≡ ok (a, record s { index = t.index })))
      e (record { memory = refl; size = refl; onward = l; inside = h }, f)

get_byte_ok :
    (r r' : Reader) (a : ℕ)
    → get_byte r ≡ ok (a, r')
    → (r.index < r.size)
      × (get_elem? r.memory r.index ≡ some a)
      × (record r { index = r.index + 1 } ≡ r')
unfolding get_byte
get_byte_ok r r' a e = elim (Bool-cases (leb r.size r.index)) [
  | inl t ↦ absurd (ground (arith, t))
  | inr f ↦ elim (Option-cases (get_elem? r.memory r.index)) [
    | inl n ↦ absurd (ground (arith, f, n))
    | inr (b, g) ↦ (ground (arith, f), ground (arith, f, g), ground (arith, f, g))
  ]
]

pub get_byte-Local : Local get_byte
unfolding get_byte
get_byte-Local r r' a i s e =
    let (l, g, n) = get_byte_ok r r' a e in
    to_place get_byte r r' a (r.index + 1) n (omega arith) (omega arith) (λ t al.
      let b = sym (al.bytes r.index (omega arith)) ∙ g in
      let c : leb t.size r.index ≡ false = ground (arith, al.reach) in rw (get_byte, c, b) refl)

skip_ok :
    (n : ℕ) (r r' : Reader) (a : Unit {0})
    → n < 2 ^ 62
    → r.index ≤ r.size
    → r.size < 2 ^ 63
    → skip n r ≡ ok (a, r')
    → (r.index + n ≤ r.size) × (record r { index = r.index + n } ≡ r')
unfolding skip
skip_ok n r r' a h i s e = elim (Bool-cases (ltb r.size (r.index + n))) [
  | inl t ↦ absurd (ground (arith, t))
  | inr f ↦ (ground (arith, f), ground (arith, f))
]

fits_again :
    (n i size : ℕ)
    → i + n ≤ size
    → size < 2 ^ 63
    → (ltb size ((i + n) % 2 ^ 64) ≡ false) × ((i + n) % 2 ^ 64 ≡ i + n)
fits_again n i size h s = (ground arith, omega arith)

pub skip-Local : (n : ℕ) → n < 2 ^ 62 → Local (skip n)
unfolding skip
skip-Local n h r r' a i s e =
    let (l, m) = skip_ok n r r' a h i s e in
    to_place (skip n) r r' a (r.index + n) m (omega arith) l (λ t al.
      let c = fits_again n r.index t.size (al.reach) (al.small) in rw (skip, c.0, c.1) refl)

get_span_ok :
    (n : ℕ) (r r' : Reader) (a : Span)
    → n < 2 ^ 62
    → r.index ≤ r.size
    → r.size < 2 ^ 63
    → get_span n r ≡ ok (a, r')
    → (r.index + n ≤ r.size)
      × (record r { index = r.index + n } ≡ r')
      × (record { start = r.index; size = n } ≡ a)
unfolding get_span
get_span_ok n r r' a h i s e = elim (Bool-cases (ltb r.size (r.index + n))) [
  | inl t ↦ absurd (ground (arith, t))
  | inr f ↦ (ground (arith, f), ground (arith, f), ground (arith, f))
]

pub get_span-Local : (n : ℕ) → n < 2 ^ 62 → Local (get_span n)
unfolding get_span
get_span-Local n h r r' a i s e =
    let (l, m, v) = get_span_ok n r r' a h i s e in
    to_place (get_span n) r r' a (r.index + n) m (omega arith) l (λ t al.
      let c = fits_again n r.index t.size (al.reach) (al.small) in
      rw (get_span, c.0, c.1, ← v) refl)

pub get_bytes_ok :
    (n : ℕ) (r r' : Reader) (a : List ℕ)
    → n < 2 ^ 62
    → r.index ≤ r.size
    → r.size < 2 ^ 63
    → get_bytes n r ≡ ok (a, r')
    → (r.index + n ≤ r.size)
      × (record r { index = r.index + n } ≡ r')
      × (copy r.index n r.memory ≡ some a)
unfolding get_bytes
get_bytes_ok n r r' a h i s e = elim (Bool-cases (ltb r.size (r.index + n))) [
  | inl t ↦ absurd (ground (arith, t))
  | inr f ↦ elim (Option-cases (copy r.index n r.memory)) [
    | inl c ↦ absurd (ground (arith, f, c))
    | inr (b, c) ↦ (ground (arith, f), ground (arith, f, c), ground (arith, f, c))
  ]
]

pub get_bytes-Local : (n : ℕ) → n < 2 ^ 62 → Local (get_bytes n)
unfolding get_bytes
get_bytes-Local n h r r' a i s e =
    let (l, m, v) = get_bytes_ok n r r' a h i s e in
    to_place (get_bytes n) r r' a (r.index + n) m (omega arith) l (λ t al.
      let c = fits_again n r.index t.size (al.reach) (al.small) in
      let w = copy-Agree r.index n r.memory t.memory a (al.bytes) v in
      rw (get_bytes, c.0, w, c.1) refl)

pub index-Local : Local index
index-Local r r' a i s e =
    to_place index r r' a r.index (ground (arith, e)) (omega arith) i (λ t al. ground (arith, e))

pub pure-Local : {A : Type 0} (x : A) → Local (pure x)
pure-Local x r r' a i s e =
    to_place (pure x) r r' a r.index (ground (arith, e)) (omega arith) i (λ t al. ground (arith, e))

-- What a sequence of two reads comes from.
from_bind :
    {A B : Type 0} (x : Result (A × Reader)) (f : A → M B) (y : B × Reader)
    → elim x [
      | ok (a, r) ↦ f a r
      | rejected ↦ rejected
      | thrown ↦ thrown
      | fault ↦ fault
      | running ↦ running
    ]
      ≡ ok y
    → (a : A) × (r : Reader) × (x ≡ ok (a, r)) × (f a r ≡ ok y)
from_bind (ok (a, r)) f y e = (a, r, refl, e)
from_bind rejected f y e = absurd (ground arith)
from_bind thrown f y e = absurd (ground arith)
from_bind fault f y e = absurd (ground arith)
from_bind running f y e = absurd (ground arith)

Moves-trans : (r r1 r' : Reader) → Moves r r1 → Moves r1 r' → Moves r r'
Moves-trans r r1 r' m n = record {
  memory = n.memory ∙ m.memory;
  size = n.size ∙ m.size;
  onward = omega (arith, m.onward, n.onward);
  inside = n.inside;
}

Alike-before : (k n : ℕ) (r s : Reader) → k ≤ n → Alike n r s → Alike k r s
Alike-before k n r s h al = record {
  bytes = λ i l. al.bytes i (omega arith);
  reach = omega (arith, al.reach);
  small = al.small;
}

Alike-moved : (n : ℕ) (r r1 s : Reader) → Moves r r1 → Alike n r s → Alike n r1 s
Alike-moved n r r1 s m al = record {
  bytes = λ i l. ap (λ x. get_elem? x i) m.memory ∙ al.bytes i l;
  reach = al.reach;
  small = al.small;
}

pub bind-Local :
    {A B : Type 0} (m : M A) (f : A → M B) → Local m → ((a : A) → Local (f a)) → Local (m >>= f)
bind-Local m f lm lf r r' b i s e =
    let (a, r1, em, ef) = from_bind (m r) f (b, r') e in
    let (mv, again) = lm r r1 a i s em in
    let (mv', again') = lf a r1 r' b (mv.inside) (rw mv.size s) ef in
    (
      Moves-trans r r1 r' mv mv',
      λ t al.
          let first = again t (Alike-before r1.index r'.index r t (mv'.onward) al) in
          let second = again' t (Alike-moved r'.index r r1 t mv al) in rw (◌>>=◌, first) second,
    )

pub fault-Local : {A : Type 0} → Local {A = A} (λ r. fault)
fault-Local r r' a i s e = absurd (ground arith)

pub rejected-Local : {A : Type 0} → Local {A = A} (λ r. rejected)
rejected-Local r r' a i s e = absurd (ground arith)

pub if-Local :
    {A : Type 0} (c : Bool) (m n : M A) → Local m → Local n → Local (λ r. if c then m r else n r)
if-Local true m n h k = h
if-Local false m n h k = k

pub varint_loop-Local : (fuel shift result : ℕ) → Local (varint_loop fuel shift result)
unfolding varint_loop
varint_loop-Local zero shift result = fault-Local
varint_loop-Local (suc fuel) shift result =
    let value = (λ (t : ℕ). bit_or result (bit_and t 0x7f * 2 ^ shift % 2 ^ 64)) in
    bind-Local get_byte
      (λ t r.
        if leb 64 shift
        then fault
        else if bit_and t 0x80 == 0
        then ok (value t, r)
        else varint_loop fuel (shift + 7) (value t) r)
      get_byte-Local
      (λ t.
        if-Local (leb 64 shift) (λ r. fault)
          (λ r.
            if bit_and t 0x80 == 0
            then ok (value t, r)
            else varint_loop fuel (shift + 7) (value t) r)
          fault-Local
          (if-Local (bit_and t 0x80 == 0) (pure (value t)) (varint_loop fuel (shift + 7) (value t))
            (pure-Local (value t)) (varint_loop-Local fuel (shift + 7) (value t))))

pub get_varint-Local : Local get_varint
unfolding get_varint
get_varint-Local = varint_loop-Local 11 0 0
