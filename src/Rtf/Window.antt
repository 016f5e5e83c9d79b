-- ===== src/Rtf/Window.antt =====
-- The circular dictionary against the whole history.
--
-- The specification keeps every byte produced since the initial dictionary, `history`, and reads a
-- reference as classical LZ77 does, at a distance back from the end. The decoder of rtf.py keeps the
-- last 4096 bytes in a ring; `Agrees` says what the ring holds.
use pypst_reader.Prelude.{
  ℕ, zero, suc, ◌+◌, ◌-◌, ◌*◌, ◌/◌, ◌%◌, ◌^◌, ◌≤◌, ◌<◌, ◌≡◌, refl, sym, ap, ◌∙◌, arith, min, [],
  ◌∷◌, ◌++◌, length, drop, set, get_or, ltb, leb, ◌==◌, if◌then◌else◌, length-append, length-set,
  Option, none, some, ◌≢◌,
}
use mathlib.Core.Path.{subst}
use native.Mathlib.Decide.{dec_lt}
use pypst_reader.Error.{Result, ok, err, stuck, format, limit}
use pypst_reader.Bytes.{Bytes}
use pypst_reader.Rtf.{Decoder, emit, copy, is_reference}

-- Copies `n` bytes, each read `distance` back from the end at its time.
unfoldable pub copy_back : ℕ → ℕ → Bytes → Bytes
copy_back zero distance history = history
copy_back (suc n) distance history =
    copy_back n distance (history ++ get_or history (length history - distance) 0 ∷ [])

-- The distance back from the end at which a 12-bit offset points.
abbrev pub distance : ℕ → ℕ → ℕ
distance offset size = (size % 4096 + 4096 - offset) % 4096

unfoldable pub lz77_reference : ℕ → ℕ → Bytes → Result (Option Bytes)
unfolding copy_back
lz77_reference max_history token history =
    let offset = token / 2 ^ 4 in
    let count = token % 2 ^ 4 + 2 in
    if offset == length history % 4096
    then ok none
    else if leb (min (length history) 4096) offset
    then err format
    else if ltb max_history (length history + count)
    then err limit
    else ok (some (copy_back count (distance offset (length history)) history))

abbrev pub after_history : Result (Option Bytes) → Bytes → (Bytes → Result Bytes) → Result Bytes
after_history (ok none) history rest = ok (drop 207 history)
after_history (ok (some h)) history rest = rest h
after_history (err e) history rest = err e
after_history stuck history rest = stuck

-- The whole decompression over the history, with no ring.
unfoldable pub lz77 : ℕ → Bytes → ℕ → ℕ → Bytes → Result Bytes
lz77 max_history [] control bit history = err format
lz77 max_history (x ∷ []) control bit history =
    let run = lz77 max_history [] x 0 history in
    let literal = lz77 max_history [] control (bit + 1) (history ++ x ∷ []) in
    if bit == 8
    then run
    else if is_reference control bit
    then err format
    else if leb max_history (length history)
    then err limit
    else literal
lz77 max_history (x ∷ y ∷ rest) control bit history =
    let run = lz77 max_history (y ∷ rest) x 0 history in
    let literal = lz77 max_history (y ∷ rest) control (bit + 1) (history ++ x ∷ []) in
    let more = λ (h : Bytes). lz77 max_history rest control (bit + 1) h in
    if bit == 8
    then run
    else if is_reference control bit
    then after_history (lz77_reference max_history (x * 2 ^ 8 + y) history) history more
    else if leb max_history (length history)
    then err limit
    else literal

-- The ring `d` of a decoder after `history`.
pub record Agrees (d : Decoder) (history : Bytes) : Type 0 where
  pub size : length d.dictionary ≡ 4096
  pub write_at : d.write ≡ length history % 4096
  pub end_at : d.end ≡ min (length history) 4096
  pub sizes : length history ≡ 207 + length d.output
  pub produced : d.output ≡ drop 207 history
  pub holds :
      (p : ℕ)
      → p < length history
      → length history ≤ p + 4096
      → get_or d.dictionary (p % 4096) 0 ≡ get_or history p 0

get_or-set_self : (xs : Bytes) (i v : ℕ) → i < length xs → get_or (set xs i v) i 0 ≡ v
get_or-set_self [] i v h = elim h [ ]
get_or-set_self (x ∷ xs) zero v h = refl
get_or-set_self (x ∷ xs) (suc i) v h = get_or-set_self xs i v (omega arith)

get_or-set_ne : (xs : Bytes) (i j v : ℕ) → i ≢ j → get_or (set xs i v) j 0 ≡ get_or xs j 0
get_or-set_ne [] i j v h = refl
get_or-set_ne (x ∷ xs) zero zero v h = absurd (h refl)
get_or-set_ne (x ∷ xs) zero (suc j) v h = refl
get_or-set_ne (x ∷ xs) (suc i) zero v h = refl
get_or-set_ne (x ∷ xs) (suc i) (suc j) v h = get_or-set_ne xs i j v (λ e. h (ap suc e))

pub get_or-append_lt :
    (xs ys : Bytes) (i : ℕ) → i < length xs → get_or (xs ++ ys) i 0 ≡ get_or xs i 0
get_or-append_lt [] ys i h = elim h [ ]
get_or-append_lt (x ∷ xs) ys zero h = refl
get_or-append_lt (x ∷ xs) ys (suc i) h = get_or-append_lt xs ys i (omega arith)

get_or-append_last : (xs : Bytes) (v i : ℕ) → i ≡ length xs → get_or (xs ++ v ∷ []) i 0 ≡ v
get_or-append_last [] v zero h = refl
get_or-append_last [] v (suc i) h = absurd (omega arith)
get_or-append_last (x ∷ xs) v zero h = absurd (omega arith)
get_or-append_last (x ∷ xs) v (suc i) h = get_or-append_last xs v i (omega arith)

drop-append_le : (n : ℕ) (xs ys : Bytes) → n ≤ length xs → drop n (xs ++ ys) ≡ drop n xs ++ ys
drop-append_le zero xs ys h = refl
drop-append_le (suc n) [] ys h = elim h [ ]
drop-append_le (suc n) (x ∷ xs) ys h = drop-append_le n xs ys (omega arith)

end_step :
    (e h h' : ℕ) → e ≡ min h 4096 → h' ≡ h + 1 → (if ltb e 4096 then e + 1 else e) ≡ min h' 4096
end_step e h h' p q = ground arith

other_slot : (p h : ℕ) → p < h → h + 1 ≤ p + 4096 → h % 4096 ≢ p % 4096
other_slot p h lt le e = omega arith

-- The ring after one more byte, for a position before it and for the new one.
module _ (d : Decoder) (history : Bytes) (b : ℕ) (a : Agrees d history) where
  old_slot :
      (p : ℕ)
      → p < length history
      → length history + 1 ≤ p + 4096
      → get_or (set d.dictionary d.write b) (p % 4096) 0 ≡ get_or (history ++ b ∷ []) p 0
  old_slot p lt le =
      get_or-set_ne d.dictionary d.write (p % 4096) b
        (λ e. other_slot p (length history) lt le (sym a.write_at ∙ e))
      ∙ a.holds p lt (omega arith)
      ∙ sym (get_or-append_lt history (b ∷ []) p lt)

  new_slot : get_or (set d.dictionary d.write b) d.write 0 ≡ b
  new_slot = get_or-set_self d.dictionary d.write b (omega (arith, a.size, a.write_at))

  slots :
      (p : ℕ)
      → p < length history + 1
      → length history + 1 ≤ p + 4096
      → get_or (set d.dictionary d.write b) (p % 4096) 0 ≡ get_or (history ++ b ∷ []) p 0
  slots p lt le = elim (dec_lt p (length history)) [
    | yes h ↦ old_slot p h le
    | no h ↦
        let e : p ≡ length history = omega arith in
        let at : p % 4096 ≡ d.write = omega (arith, a.write_at) in
        ap (λ (t : ℕ). get_or (set d.dictionary d.write b) t 0) at
        ∙ new_slot
        ∙ sym (get_or-append_last history b p e)
  ]

-- One byte out keeps the ring and the history in step.
pub emit-Agrees :
    (d : Decoder) (history : Bytes) (b : ℕ)
    → Agrees d history
    → Agrees (emit d b) (history ++ b ∷ [])
unfolding emit
emit-Agrees d history b a =
    let grown : length (history ++ b ∷ []) ≡ length history + 1 =
      omega (arith, length-append history (b ∷ [])) in
    record {
      size = length-set d.dictionary d.write b ∙ a.size;
      write_at = omega (arith, grown, a.write_at);
      end_at = end_step d.end (length history) (length (history ++ b ∷ [])) a.end_at grown;
      sizes = omega (arith, grown, length-append d.output (b ∷ []), a.sizes);
      produced =
          ap (λ (t : Bytes). t ++ b ∷ []) a.produced
          ∙ sym (drop-append_le 207 history (b ∷ []) (omega (arith, a.sizes)));
      holds = λ p lt le. slots d history b a p (omega (arith, grown)) (omega (arith, grown));
    }

-- A copy from the ring is the copy from the history.
pub copy-Agrees :
    (n read back : ℕ) (d : Decoder) (history : Bytes)
    → Agrees d history
    → 0 < back
    → back ≤ 4096
    → back ≤ length history
    → read ≡ (length history - back) % 4096
    → Agrees (copy n read d) (copy_back n back history)
unfolding copy copy_back
copy-Agrees zero read back d history a p q r e = a
copy-Agrees (suc n) read back d history a p q r e =
    let from : ℕ = length history - back in
    let same : get_or d.dictionary read 0 ≡ get_or history from 0 =
      ap (λ (t : ℕ). get_or d.dictionary t 0) e ∙ a.holds from (omega arith) (omega arith) in
    let byte : ℕ = get_or d.dictionary read 0 in
    let grown : length (history ++ byte ∷ []) ≡ length history + 1 =
      omega (arith, length-append history (byte ∷ [])) in
    let rest =
      copy-Agrees n ((read + 1) % 4096) back (emit d byte) (history ++ byte ∷ [])
        (emit-Agrees d history byte a) p q (omega (arith, grown)) (omega (arith, grown)) in
    subst
      (λ (t : ℕ).
        Agrees (copy n ((read + 1) % 4096) (emit d byte)) (copy_back n back (history ++ t ∷ [])))
      same rest
