-- ===== src/Encode/Inverse.antt =====
-- Both transforms are undone: the tables are inverse to one another, which is checked on every byte.
use pypst_reader.Prelude.{
  ℕ, zero, suc, ◌+◌, ◌-◌, ◌/◌, ◌%◌, ◌^◌, ◌<◌, ◌≡◌, refl, ap, ◌∙◌, arith, Bool, true, ◌&&◌, ltb,
  ◌==◌, [], ◌∷◌, map, length, length-map,
}
use pypst_reader.Bytes.{Bytes, IsBytes}
use pypst_reader.Encode.{
  CryptMethod, none, permute, cyclic, lookup, decode_permute, encode_permute, cyclic_byte,
  cyclic_loop, encode_decode_cyclic, decode_block,
}
use pypst_reader.Encode.Tables.{key_data_r, key_data_s, key_data_i}

all_below : ℕ → (ℕ → Bool) → Bool
all_below zero p = true
all_below (suc n) p = p n && all_below n p

all_below→ : (n : ℕ) (p : ℕ → Bool) (x : ℕ) → all_below n p ≡ true → x < n → p x ≡ true
unfolding all_below
all_below→ zero p x e h = elim h [ ]
all_below→ (suc n) p x e h = ground (arith, all_below→ n p x)

-- What the tables satisfy at a byte.
entry_ok : ℕ → Bool
entry_ok b =
    ltb (lookup key_data_r b) 256
    && ltb (lookup key_data_s b) 256
    && ltb (lookup key_data_i b) 256
    && (lookup key_data_i (lookup key_data_r b) == b)
    && (lookup key_data_r (lookup key_data_i b) == b)
    && (lookup key_data_s (lookup key_data_s b) == b)

table_ok : all_below 256 entry_ok ≡ true
unfolding all_below entry_ok lookup key_data_r key_data_s key_data_i
table_ok = refl

record Entry (b : ℕ) : Type 0 where
  r_byte : lookup key_data_r b < 256
  s_byte : lookup key_data_s b < 256
  i_byte : lookup key_data_i b < 256
  i_r : lookup key_data_i (lookup key_data_r b) ≡ b
  r_i : lookup key_data_r (lookup key_data_i b) ≡ b
  s_s : lookup key_data_s (lookup key_data_s b) ≡ b

split-Entry : (b : ℕ) → entry_ok b ≡ true → Entry b
unfolding entry_ok
split-Entry b e = ground arith

entry : (b : ℕ) → b < 256 → Entry b
entry b h = split-Entry b (all_below→ 256 entry_ok b table_ok h)

-- (x + y) - y modulo 256, and (x - y) + y.
add_sub : (x y : ℕ) → x < 256 → y < 256 → ((x + y) % 256 + 256 - y) % 256 ≡ x
add_sub x y p q = omega arith

sub_add : (x y : ℕ) → x < 256 → y < 256 → ((x + 256 - y) % 256 + y) % 256 ≡ x
sub_add x y p q = omega arith

-- One byte, and its image, for the two halves of the key.
module _ (low high x : ℕ) (hl : low < 256) (hh : high < 256) (hx : x < 256) where
  abbrev first : ℕ
  first = lookup key_data_r ((x + low) % 256)

  abbrev second : ℕ
  second = lookup key_data_s ((first + high) % 256)

  abbrev third : ℕ
  third = lookup key_data_i ((second + 256 - high) % 256)

  undo_third :
      lookup key_data_r (((third + 256 - low) % 256 + low) % 256) ≡ (second + 256 - high) % 256
  undo_third =
      let e = entry ((second + 256 - high) % 256) (omega arith) in
      ap (lookup key_data_r) (sub_add third low e.i_byte hl) ∙ e.r_i

  undo_second :
      lookup key_data_s (((second + 256 - high) % 256 + high) % 256) ≡ (first + high) % 256
  undo_second =
      let e = entry ((first + high) % 256) (omega arith) in
      ap (lookup key_data_s) (sub_add second high e.s_byte hh) ∙ e.s_s

  undo_first : lookup key_data_i (((first + high) % 256 + 256 - high) % 256) ≡ (x + low) % 256
  undo_first =
      let e = entry ((x + low) % 256) (omega arith) in
      ap (lookup key_data_i) (add_sub first high e.r_byte hh) ∙ e.i_r

cyclic_byte_twice : (k x : ℕ) → x < 256 → cyclic_byte k (cyclic_byte k x) ≡ x
unfolding cyclic_byte
cyclic_byte_twice k x h =
    let low = k % 256 in
    let high = k / 256 % 256 in
    let hl : low < 256 = omega arith in
    let hh : high < 256 = omega arith in
    rw
      (undo_third low high x hl hh h, undo_second low high x hl hh h, undo_first low high x hl hh h)
      (add_sub x low h hl)

cyclic_loop_twice : (k : ℕ) (bs : Bytes) → IsBytes bs → cyclic_loop k (cyclic_loop k bs) ≡ bs
unfolding cyclic_loop
cyclic_loop_twice k [] h = refl
cyclic_loop_twice k (b ∷ bs) (p, h) =
    λ i. cyclic_byte_twice k b p i ∷ cyclic_loop_twice ((k + 1) % 2 ^ 16) bs h i

-- On bytes the cyclic transform is its own inverse under every key.
pub cyclic-cyclic :
    (bs : Bytes) (key : ℕ)
    → IsBytes bs
    → encode_decode_cyclic (encode_decode_cyclic bs key) key ≡ bs
unfolding encode_decode_cyclic
cyclic-cyclic bs key h = cyclic_loop_twice _ bs h

map_inverse :
    (f g : ℕ → ℕ) (bs : Bytes)
    → ((b : ℕ) → b < 256 → f (g b) ≡ b)
    → IsBytes bs
    → map f (map g bs) ≡ bs
map_inverse f g [] e h = refl
map_inverse f g (b ∷ bs) e (p, h) = λ i. e b p i ∷ map_inverse f g bs e h i

-- On bytes the two permutative transforms undo each other, in both orders.
pub permute_inverse :
    (bs : Bytes)
    → IsBytes bs
    → (decode_permute (encode_permute bs) ≡ bs) × (encode_permute (decode_permute bs) ≡ bs)
unfolding decode_permute encode_permute
permute_inverse bs h =
    (map_inverse _ _ bs (λ b p. (entry b p).i_r) h, map_inverse _ _ bs (λ b p. (entry b p).r_i) h)

length-cyclic_loop : (k : ℕ) (bs : Bytes) → length (cyclic_loop k bs) ≡ length bs
unfolding cyclic_loop
length-cyclic_loop k [] = refl
length-cyclic_loop k (b ∷ bs) = ap suc (length-cyclic_loop ((k + 1) % 2 ^ 16) bs)

-- Decoding keeps the number of bytes, whatever the method and the key.
pub length-decode_block :
    (bs : Bytes) (method : CryptMethod) (key : ℕ) → length (decode_block bs method key) ≡ length bs
unfolding decode_block decode_permute encode_decode_cyclic
length-decode_block bs none key = refl
length-decode_block bs permute key = length-map bs (lookup key_data_i)
length-decode_block bs cyclic key = length-cyclic_loop _ bs
