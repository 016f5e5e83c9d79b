-- ===== src/Rtf/Bounds.antt =====
-- The output never passes the ceiling, whatever the token stream says.
use pypst_reader.Prelude.{
  ℕ, zero, suc, ◌+◌, ◌*◌, ◌/◌, ◌%◌, ◌^◌, ◌≤◌, ◌<◌, ◌≡◌, refl, arith, [], ◌∷◌, length, length-append,
  leb, true, false, Option, none, some, drop, length-take,
}
use pypst_reader.Error.{Result, ok, err, stuck, limit, >>=-eq-ok, require-eq-ok, require}
use pypst_reader.Bytes.{Bytes}
use pypst_reader.Rtf.Dictionary.{initial_dictionary}
use pypst_reader.Rtf.{
  CompressionType, compressed, uncompressed, CompressedRtfHeader, read_header, Decoder, start, emit,
  copy, reference, after, lzfu, decompress_lzfu, decompress_payload, decompress_rtf,
}

length-copy : (n read : ℕ) (d : Decoder) → length (copy n read d).output ≡ length d.output + n
unfolding copy
length-copy zero read d = omega arith
length-copy (suc n) read d =
    omega (arith, length-copy n ((read + 1) % 4096) (emit d _), length-append d.output (_ ∷ []))

length-reference :
    (max_output token : ℕ) (d d' : Decoder)
    → reference max_output token d ≡ ok (some d')
    → length d'.output ≤ max_output
unfolding reference
length-reference max_output token d d' h =
    ground (arith, length-copy (token % 16 + 2) (token / 16) d)

length-emit :
    (max_output : ℕ) (d : Decoder) (x : ℕ)
    → leb max_output (length d.output) ≡ false
    → length (emit d x).output ≤ max_output
unfolding emit
length-emit max_output d x h =
    let room : length d.output < max_output = ground arith in
    omega (arith, length-append d.output (x ∷ []))

length-after :
    (max_output : ℕ) (r : Result (Option Decoder)) (d : Decoder) (f : Decoder → Result Bytes)
    (out : Bytes)
    → ((d' : Decoder) → r ≡ ok (some d') → length d'.output ≤ max_output)
    → length d.output ≤ max_output
    → ((d' : Decoder) → length d'.output ≤ max_output → f d' ≡ ok out → length out ≤ max_output)
    → after r d f ≡ ok out
    → length out ≤ max_output
length-after m (ok none) d f out k le g h = ground arith
length-after m (ok (some x)) d f out k le g h = g x (k x refl) h
length-after m (err e) d f out k le g h = cc
length-after m stuck d f out k le g h = cc

length-lzfu :
    (max_output : ℕ) (payload : Bytes) (control bit : ℕ) (d : Decoder) (out : Bytes)
    → length d.output ≤ max_output
    → lzfu max_output payload control bit d ≡ ok out
    → length out ≤ max_output
unfolding lzfu
length-lzfu m [] control bit d out le h = cc
length-lzfu m (x ∷ []) control bit d out le h = ground (
  arith,
  length-lzfu m [] x 0 d out,
  length-emit m d x,
  length-lzfu m [] control (bit + 1) (emit d x) out,
)
length-lzfu m (x ∷ y ∷ rest) control bit d out le h = ground (
  arith,
  length-lzfu m (y ∷ rest) x 0 d out,
  length-emit m d x,
  length-lzfu m (y ∷ rest) control (bit + 1) (emit d x) out,
  length-after m (reference m (x * 2 ^ 8 + y) d) d (λ d'. lzfu m rest control (bit + 1) d') out
      (λ d' e. length-reference m (x * 2 ^ 8 + y) d d' e) le
      (λ d' q e. length-lzfu m rest control (bit + 1) d' out q e),
)

length-decompress_payload :
    (t : CompressionType) (header : CompressedRtfHeader) (payload : Bytes) (max_output : ℕ)
    {out : Bytes}
    → header.raw_size ≤ max_output
    → decompress_payload t header payload max_output ≡ ok out
    → length out ≤ max_output
unfolding decompress_payload decompress_lzfu
length-decompress_payload uncompressed header payload m le h =
    ground (arith, length-take header.raw_size payload)
length-decompress_payload compressed header payload m {out} le h =
    ground
      (arith, length-lzfu m payload 0 8 start out (unfold start initial_dictionary in omega arith))

-- A successful decompression, of either type, is at most `max_output` bytes.
pub length-decompress_rtf :
    (bs : Bytes) (max_output : ℕ) {out : Bytes}
    → decompress_rtf bs max_output ≡ ok out
    → length out ≤ max_output
unfolding decompress_rtf
length-decompress_rtf bs m {out} h =
    let (header, _, h1) = >>=-eq-ok (read_header bs) _ h in
    let (_, fits, h2) = >>=-eq-ok (require (leb header.raw_size m) limit) _ h1 in
    let room : leb header.raw_size m ≡ true = require-eq-ok _ _ fits in
    length-decompress_payload header.comp_type header (drop 16 bs) m (ground arith) h2
