-- ===== src/Rtf/Lz77.antt =====
-- The ring decoder computes what LZ77 over the whole history computes.
use pypst_reader.Prelude.{
  ℕ, ◌+◌, ◌-◌, ◌*◌, ◌/◌, ◌%◌, ◌^◌, ◌≤◌, ◌<◌, ◌≡◌, refl, sym, ap, ◌∙◌, arith, Bool, true, false, min,
  [], ◌∷◌, ◌++◌, length, ltb, leb, ◌==◌, if◌then◌else◌, replicate, get_or, ◌≢◌, Bool-cases, inl,
  inr, Option, none, some,
}
use pypst_reader.Error.{Result, ok, err, stuck, limit}
use pypst_reader.Bytes.{Bytes, IsBytes}
use pypst_reader.Rtf.Dictionary.{initial_dictionary}
use pypst_reader.Rtf.{
  Decoder, start, emit, copy, reference, is_reference, after, lzfu, decompress_lzfu,
}
use pypst_reader.Rtf.Window.{
  Agrees, distance, lz77_reference, after_history, lz77, copy_back, emit-Agrees, copy-Agrees,
  get_or-append_lt,
}

-- The initial ring holds the 207 bytes of the initial dictionary.
start-Agrees : Agrees start initial_dictionary
unfolding start initial_dictionary
start-Agrees = record {
  size = refl;
  write_at = refl;
  end_at = refl;
  sizes = refl;
  produced = refl;
  holds = λ p lt le.
      let at : p % 4096 ≡ p = omega arith in
      ap (λ (t : ℕ). get_or (initial_dictionary ++ replicate (4096 - 207) 0) t 0) at
      ∙ get_or-append_lt initial_dictionary (replicate (4096 - 207) 0) p lt;
}

-- Two outcomes of a reference, in step.
abbrev SameStep : Result (Option Decoder) → Result (Option Bytes) → Type 0
SameStep (ok none) (ok none) = Unit
SameStep (ok (some d)) (ok (some h)) = Agrees d h
SameStep (err e) (err e') = e ≡ e'
SameStep r s = ⊥

room_step :
    (m size produced n : ℕ) (b : Bool)
    → size ≡ 207 + produced
    → ltb m (produced + n) ≡ b
    → ltb (m + 207) (size + n) ≡ b
room_step m size produced n true p e = ground arith
room_step m size produced n false p e = ground arith

full_step : (m size produced : ℕ) → size ≡ 207 + produced → leb (m + 207) size ≡ leb m produced
full_step m size produced p = ground arith

-- Where a reference that is neither the terminator nor past the end points.
distance_lem :
    (offset size : ℕ)
    → offset < 4096
    → ((offset == size % 4096) ≡ false)
    → leb (min size 4096) offset ≡ false
    → (0 < distance offset size)
      × (distance offset size ≤ 4096)
      × (distance offset size ≤ size)
      × (offset ≡ (size - distance offset size) % 4096)
distance_lem offset size h e f = facts differs inside
  where
    differs : offset ≢ size % 4096
    differs = ground arith

    inside : offset < min size 4096
    inside = ground arith

    facts :
        offset ≢ size % 4096
        → offset < min size 4096
        → (0 < distance offset size)
          × (distance offset size ≤ 4096)
          × (distance offset size ≤ size)
          × (offset ≡ (size - distance offset size) % 4096)
    facts p q = (omega arith, omega arith, omega arith, omega arith)

module _ (max_output token : ℕ) (d : Decoder) (history : Bytes) (a : Agrees d history) where
  same_terminator :
      (b : Bool) → ((token / 16) == d.write) ≡ b → ((token / 16) == length history % 4096) ≡ b
  same_terminator b e = ap (λ (t : ℕ). (token / 16) == t) (sym a.write_at) ∙ e

  same_past_end :
      (b : Bool) → leb d.end (token / 16) ≡ b → leb (min (length history) 4096) (token / 16) ≡ b
  same_past_end b e = ap (λ (t : ℕ). leb t (token / 16)) (sym a.end_at) ∙ e

  copied :
      token < 2 ^ 16
      → ((token / 16) == length history % 4096) ≡ false
      → leb (min (length history) 4096) (token / 16) ≡ false
      → Agrees
          (copy (token % 16 + 2) (token / 16) d)
          (copy_back (token % 16 + 2) (distance (token / 16) (length history)) history)
  copied h e f =
      let (p, q, r, at) = distance_lem (token / 16) (length history) (omega arith) e f in
      copy-Agrees (token % 16 + 2) (token / 16) (distance (token / 16) (length history)) d history a
        p q r at

  reference-SameStep :
      token < 2 ^ 16
      → SameStep (reference max_output token d) (lz77_reference (max_output + 207) token history)
  unfolding reference lz77_reference
  reference-SameStep h = elim (Bool-cases ((token / 16) == d.write)) [
    | inl e ↦ rw (e, same_terminator true e) tt
    | inr e ↦
        rw (e, same_terminator false e)
          (elim (Bool-cases (leb d.end (token / 16))) [
            | inl f ↦ rw (f, same_past_end true f) refl
            | inr f ↦
                rw (f, same_past_end false f)
                  (elim (Bool-cases (ltb max_output (length d.output + (token % 16 + 2)))) [
                    | inl g ↦
                        rw
                          (
                            g,
                            room_step max_output (length history) (length d.output) (token % 16 + 2)
                                true a.sizes g,
                          )
                          refl
                    | inr g ↦
                        rw
                          (
                            g,
                            room_step max_output (length history) (length d.output) (token % 16 + 2)
                                false a.sizes g,
                          )
                          (copied h (same_terminator false e) (same_past_end false f))
                  ])
          ])
  ]

after-SameStep :
    (r : Result (Option Decoder)) (s : Result (Option Bytes)) (d : Decoder) (history : Bytes)
    (f : Decoder → Result Bytes) (g : Bytes → Result Bytes)
    → Agrees d history
    → SameStep r s
    → ((d' : Decoder) (h' : Bytes) → Agrees d' h' → f d' ≡ g h')
    → after r d f ≡ after_history s history g
after-SameStep (ok none) (ok none) d history f g a t k = ap ok a.produced
after-SameStep (ok none) (ok (some h)) d history f g a t k = absurd t
after-SameStep (ok none) (err e) d history f g a t k = absurd t
after-SameStep (ok none) stuck d history f g a t k = absurd t
after-SameStep (ok (some x)) (ok none) d history f g a t k = absurd t
after-SameStep (ok (some x)) (ok (some h)) d history f g a t k = k x h t
after-SameStep (ok (some x)) (err e) d history f g a t k = absurd t
after-SameStep (ok (some x)) stuck d history f g a t k = absurd t
after-SameStep (err e) (ok x) d history f g a t k = absurd t
after-SameStep (err e) (err e') d history f g a t k = ap err t
after-SameStep (err e) stuck d history f g a t k = absurd t
after-SameStep stuck s d history f g a t k = absurd t

-- One token: the same test on both sides, then parts in step.
token_step :
    (max_output : ℕ) (d : Decoder) (history : Bytes) (full set : Bool)
    {run run' ref ref' lit lit' : Result Bytes}
    → Agrees d history
    → run ≡ run'
    → ref ≡ ref'
    → lit ≡ lit'
    → (if full
        then run
        else if set
        then ref
        else if leb max_output (length d.output)
        then err limit
        else lit)
      ≡ (if full
          then run'
          else if set
          then ref'
          else if leb (max_output + 207) (length history)
          then err limit
          else lit')
token_step max_output d history true set a p q r = p
token_step max_output d history false true a p q r = q
token_step max_output d history false false a p q r =
    rw (full_step max_output (length history) (length d.output) a.sizes)
      (λ i. if leb max_output (length d.output) then err limit else r i)

lzfu-lz77 :
    (payload : Bytes) (max_output control bit : ℕ) (d : Decoder) (history : Bytes)
    → IsBytes payload
    → Agrees d history
    → lzfu max_output payload control bit d ≡ lz77 (max_output + 207) payload control bit history
unfolding lzfu lz77
lzfu-lz77 [] max_output control bit d history bs a = refl
lzfu-lz77 (x ∷ []) max_output control bit d history bs a =
    token_step max_output d history (bit == 8) (is_reference control bit) a
      (lzfu-lz77 [] max_output x 0 d history tt a) refl
      (lzfu-lz77 [] max_output control (bit + 1) (emit d x) (history ++ x ∷ []) tt
        (emit-Agrees d history x a))
lzfu-lz77 (x ∷ y ∷ rest) max_output control bit d history (hx, (hy, hr)) a =
    token_step max_output d history (bit == 8) (is_reference control bit) a
      (lzfu-lz77 (y ∷ rest) max_output x 0 d history (hy, hr) a)
      (after-SameStep (reference max_output (x * 2 ^ 8 + y) d)
        (lz77_reference (max_output + 207) (x * 2 ^ 8 + y) history) d history _ _ a
        (reference-SameStep max_output (x * 2 ^ 8 + y) d history a (omega arith))
        (λ d' h' a'. lzfu-lz77 rest max_output control (bit + 1) d' h' hr a'))
      (lzfu-lz77 (y ∷ rest) max_output control (bit + 1) (emit d x) (history ++ x ∷ []) (hy, hr)
        (emit-Agrees d history x a))

-- On every payload of bytes, the ring decoder returns the bytes, or the error, of LZ77 over the
-- whole history that starts with the initial dictionary.
pub decompress_lzfu-lz77 :
    (payload : Bytes) (max_output : ℕ)
    → IsBytes payload
    → decompress_lzfu payload max_output ≡ lz77 (max_output + 207) payload 0 8 initial_dictionary
unfolding decompress_lzfu
decompress_lzfu-lz77 payload max_output bs =
    lzfu-lz77 payload max_output 0 8 start initial_dictionary bs start-Agrees
