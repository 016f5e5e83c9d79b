-- ===== src/Bytes/RoundTrip.antt =====
-- `to_bytes` and `field` undo each other, and bounds on what `field` reads.
use pypst_reader.Prelude.{
  ℕ, zero, suc, ◌+◌, ◌*◌, ◌/◌, ◌%◌, ◌^◌, ◌≤◌, ◌<◌, ◌≡◌, refl, sym, ap, ◌∙◌, arith, [], ◌∷◌, ◌++◌,
  length, take, drop, length-append, length-take, length-drop, All-take, All-drop, le→leb,
}
use mathlib.Core.List.{append_assoc}
use native.Mathlib.Nat.{pow-suc, one-le-pow}
use pypst_reader.Error.{ok}
use pypst_reader.Bytes.{Bytes, IsBytes, IsByte, from_bytes, to_bytes, slice, field, need}

pub length-to_bytes : (w v : ℕ) → length (to_bytes w v) ≡ w
unfolding to_bytes
length-to_bytes zero v = refl
length-to_bytes (suc w) v = ap suc (length-to_bytes w (v / 256))

pub to_bytes-IsBytes : (w v : ℕ) → IsBytes (to_bytes w v)
unfolding to_bytes
to_bytes-IsBytes zero v = tt
to_bytes-IsBytes (suc w) v = (omega arith, to_bytes-IsBytes w (v / 256))

pub from_bytes-to_bytes : (w v : ℕ) → v < 256 ^ w → from_bytes (to_bytes w v) ≡ v
unfolding from_bytes to_bytes
from_bytes-to_bytes zero v h = omega arith
from_bytes-to_bytes (suc w) v h =
    omega (arith, pow-suc 256 w, from_bytes-to_bytes w (v / 256) (omega (arith, pow-suc 256 w)))

pub from_bytes-lt : (bs : Bytes) → IsBytes bs → from_bytes bs < 256 ^ length bs
unfolding from_bytes
from_bytes-lt [] h = omega arith
from_bytes-lt (b ∷ bs) (p, h) = omega (arith, pow-suc 256 (length bs), from_bytes-lt bs h)

pub to_bytes-from_bytes : (bs : Bytes) → IsBytes bs → to_bytes (length bs) (from_bytes bs) ≡ bs
unfolding from_bytes to_bytes
to_bytes-from_bytes [] h = refl
to_bytes-from_bytes (b ∷ bs) (p, h) =
    let low : (b + 256 * from_bytes bs) % 256 ≡ b = omega arith in
    let high : (b + 256 * from_bytes bs) / 256 ≡ from_bytes bs = omega arith in
    λ i. low i ∷ (ap (to_bytes (length bs)) high ∙ to_bytes-from_bytes bs h) i

pow256_mono : (m n : ℕ) → m ≤ n → 256 ^ m ≤ 256 ^ n
pow256_mono zero n h = omega (arith, one-le-pow n 256 (omega arith))
pow256_mono (suc m) zero h = elim h [ ]
pow256_mono (suc m) (suc n) h =
    omega (arith, pow-suc 256 m, pow-suc 256 n, pow256_mono m n (omega arith))

-- What a field of `w` bytes holds fits `w` bytes.
pub field-lt : (w : ℕ) (buf : Bytes) (offset : ℕ) → IsBytes buf → field w buf offset < 256 ^ w
unfolding field
field-lt w buf offset h =
    let cut : Bytes = take w (drop offset buf) in
    omega (
      arith,
      from_bytes-lt cut (All-take IsByte w (drop offset buf) (All-drop IsByte offset buf h)),
      pow256_mono (length cut) w (omega (arith, length-take w (drop offset buf))),
    )

pub slice_prefix :
    (front mid back : Bytes) → slice (front ++ (mid ++ back)) (length front) (length mid) ≡ mid
unfolding slice
slice_prefix [] [] back = refl
slice_prefix [] (x ∷ mid) back = ap (λ t. x ∷ t) (slice_prefix [] mid back)
slice_prefix (x ∷ front) mid back = slice_prefix front mid back

-- A field written between other bytes is read back.
pub field-to_bytes :
    (w v : ℕ) (front back : Bytes)
    → v < 256 ^ w
    → field w (front ++ (to_bytes w v ++ back)) (length front) ≡ v
unfolding field
field-to_bytes w v front back h =
    let here = slice_prefix front (to_bytes w v) back in
    ap (λ n. from_bytes (slice (front ++ (to_bytes w v ++ back)) (length front) n))
      (sym (length-to_bytes w v))
    ∙ ap from_bytes here
    ∙ from_bytes-to_bytes w v h

-- Inside the buffer the check passes, and what passes is inside.
pub need-ok :
    (size : ℕ) (buf : Bytes) (offset : ℕ)
    → offset + size ≤ length buf
    → need size buf offset ≡ ok tt
unfolding need
need-ok size buf offset h = ground (arith, le→leb (offset + size) (length buf) h)

pub need-le :
    (size : ℕ) (buf : Bytes) (offset : ℕ) {u : Unit {0}}
    → need size buf offset ≡ ok u
    → offset + size ≤ length buf
unfolding need
need-le size buf offset h = ground arith

pub length-slice :
    (buf : Bytes) (offset size : ℕ)
    → offset + size ≤ length buf
    → length (slice buf offset size) ≡ size
unfolding slice
length-slice buf offset size h =
    omega (arith, length-take size (drop offset buf), length-drop offset buf)

pub need_inside :
    (size : ℕ) (front mid back : Bytes)
    → size ≤ length mid
    → need size (front ++ (mid ++ back)) (length front) ≡ ok tt
need_inside size front mid back h =
    need-ok size (front ++ (mid ++ back)) (length front)
      (omega (arith, length-append front (mid ++ back), length-append mid back))

-- The second of two neighbouring fields.
pub field-to_bytes_next :
    (w w' v v' : ℕ) (front back : Bytes)
    → v' < 256 ^ w'
    → field w' (front ++ ((to_bytes w v ++ to_bytes w' v') ++ back)) (length front + w) ≡ v'
field-to_bytes_next w w' v v' front back h =
    let here = field-to_bytes w' v' (front ++ to_bytes w v) back h in
    let at : length (front ++ to_bytes w v) ≡ length front + w =
      omega (arith, length-append front (to_bytes w v), length-to_bytes w v) in
    rw (append_assoc, ← append_assoc front (to_bytes w v), ← at) here

-- The first of two neighbouring fields.
pub field-to_bytes_first :
    (w w' v v' : ℕ) (front back : Bytes)
    → v < 256 ^ w
    → field w (front ++ ((to_bytes w v ++ to_bytes w' v') ++ back)) (length front) ≡ v
field-to_bytes_first w w' v v' front back h =
    rw append_assoc (field-to_bytes w v front (to_bytes w' v' ++ back) h)
