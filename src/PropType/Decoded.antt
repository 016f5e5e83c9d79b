-- ===== src/PropType/Decoded.antt =====
-- The kind of value that `decode` returns for each property type, multi-valued types included.
use mathlib.Core.Path.{subst}
use pypst_reader.Prelude.{
  ℕ, zero, suc, ◌+◌, ◌*◌, ◌/◌, ◌%◌, ◌≤◌, ◌≡◌, refl, sym, ap, ◌∙◌, arith, List, [], ◌∷◌, leb, ◌==◌,
  length, All, All-take, All-drop, drop, Option, none, some,
}
use pypst_reader.Error.{Result, ok, format, require, ◌>>=◌, >>=-eq-ok, ok-injective}
use pypst_reader.Bytes.{Bytes, IsByte, IsBytes, slice, u32}
use pypst_reader.PropType.{PropType}
use pypst_reader.PropType.Value.{Scalar, PropValue, Codec}
use pypst_reader.PropType.Text.{decode_string8, decode_string8_bytes, lookup_codepage}
use pypst_reader.PropType.Multi.{
  exact, decode_guid, decode_text, decode_one, check_count, each, pieces, decode_mv_fixed,
  decode_mv_guid, mv_variable_items,
}
use pypst_reader.PropType.Typed.{HasType, guid_lem, text_lem, decode_one-HasType}
use pypst_reader.PropType.Decode.{
  decode, one_of, many_of, string8_item, binary_item, decode_mv_string8, decode_mv_unicode,
  decode_mv_binary,
}
use pypst_reader.PropType.Items.{mv_variable_items_exact, check_count-le}

-- A loop over items gives one value for each, of the kind that the decoder gives.
each_lem {ℓ κ} :
    {A : Type ℓ} (P : Scalar → Type κ) (Q : A → Type 0) (f : A → Result Scalar) (items : List A)
    (vs : List Scalar)
    → ((a : A) (s : Scalar) → Q a → f a ≡ ok s → P s)
    → All Q items
    → each f items ≡ ok vs
    → All P vs × (length vs ≡ length items)
unfolding each
each_lem P Q f [] vs k q h =
    let none_left : vs ≡ [] = sym (ok-injective h) in
    (subst (All P) (sym none_left) tt, ap length none_left)
each_lem P Q f (a ∷ items) vs k (qa, q) h =
    let (s, h1, h2) = >>=-eq-ok (f a) _ h in
    let (ss, h3, h4) = >>=-eq-ok (each f items) _ h2 in
    let (all, count) = each_lem P Q f items ss k q h3 in
    let shape : s ∷ ss ≡ vs = ok-injective h4 in
    (subst (All P) shape (k a s qa h1, all), sym (ap length shape) ∙ ap suc count)

pieces-IsBytes :
    (bs : Bytes) (size count start : ℕ) → IsBytes bs → All IsBytes (pieces bs size count start)
unfolding pieces slice
pieces-IsBytes bs size zero start b = tt
pieces-IsBytes bs size (suc count) start b = (
  All-take IsByte size (drop start bs) (All-drop IsByte start bs b),
  pieces-IsBytes bs size count (start + size) b,
)

length-pieces : (bs : Bytes) (size count start : ℕ) → length (pieces bs size count start) ≡ count
unfolding pieces
length-pieces bs size zero start = refl
length-pieces bs size (suc count) start = ap suc (length-pieces bs size count (start + size))

-- Each value of the type, and `max_items` of them at most.
abbrev pub AreTyped : PropType → ℕ → List Scalar → Type 0
AreTyped t max_items vs = All (HasType t) vs × (length vs ≤ max_items)

mv_fixed_lem :
    (t : PropType) (size : ℕ) (bs : Bytes) (max_items : ℕ) (vs : List Scalar)
    → IsBytes bs
    → decode_mv_fixed t size bs max_items ≡ ok vs
    → AreTyped t max_items vs
unfolding decode_mv_fixed
mv_fixed_lem t size bs max_items vs b h =
    let (_, _, h1) = >>=-eq-ok (require (length bs % size == 0) format) _ h in
    let (_, few, h2) = >>=-eq-ok (check_count (length bs / size) max_items) _ h1 in
    let (all, count) =
      each_lem (HasType t) IsBytes (decode_one t) (pieces bs size (length bs / size) 0) vs
        (decode_one-HasType t) (pieces-IsBytes bs size (length bs / size) 0 b) h2 in
    (
      all,
      omega (
        arith,
        count,
        length-pieces bs size (length bs / size) 0,
        check_count-le (length bs / size) max_items few,
      ),
    )

mv_guid_lem :
    (bs : Bytes) (max_items : ℕ) (vs : List Scalar)
    → IsBytes bs
    → decode_mv_guid bs max_items ≡ ok vs
    → AreTyped PropType.guid max_items vs
unfolding decode_mv_guid
mv_guid_lem bs max_items vs b h =
    let (_, _, h1) = >>=-eq-ok (require (leb 4 (length bs)) format) _ h in
    let (_, few, h2) = >>=-eq-ok (check_count (u32 bs 0) max_items) _ h1 in
    let (_, _, h3) = >>=-eq-ok (exact bs (4 + 16 * u32 bs 0)) _ h2 in
    let (all, count) =
      each_lem (HasType PropType.guid) IsBytes decode_guid (pieces bs 16 (u32 bs 0) 4) vs
        (λ a s q e. guid_lem a s e) (pieces-IsBytes bs 16 (u32 bs 0) 4 b) h3 in
    (
      all,
      omega
          (arith, count, length-pieces bs 16 (u32 bs 0) 4, check_count-le (u32 bs 0) max_items few),
    )

abbrev Anything : Bytes → Type 0
Anything bs = Unit {0}

All-Anything : (items : List Bytes) → All Anything items
All-Anything [] = tt
All-Anything (a ∷ items) = (tt, All-Anything items)

-- The variable-size multi-values: any decoder of their items.
variable_lem :
    (t : PropType) (f : Bytes → Result Scalar) (bs : Bytes) (max_items : ℕ) (vs : List Scalar)
    → ((a : Bytes) (s : Scalar) → f a ≡ ok s → HasType t s)
    → (mv_variable_items bs max_items >>= λ items. each f items) ≡ ok vs
    → AreTyped t max_items vs
variable_lem t f bs max_items vs k h =
    let (items, h1, h2) = >>=-eq-ok (mv_variable_items bs max_items) _ h in
    let (all, count) =
      each_lem (HasType t) Anything f items vs (λ a s q e. k a s e) (All-Anything items) h2 in
    (all, omega (arith, count, (mv_variable_items_exact bs max_items items h1).1))

string8_lem :
    (codec : Codec) (bs : Bytes) (s : Scalar)
    → string8_item codec bs ≡ ok s
    → HasType PropType.string8 s
string8_lem codec bs s h =
    let (t, _, h1) = >>=-eq-ok (decode_string8_bytes bs codec) _ h in (t, sym (ok-injective h1))

-- The type of the values in a multi-valued type.
abbrev pub element : PropType → Option PropType
element PropType.mv_short = some PropType.short
element PropType.mv_long = some PropType.long
element PropType.mv_float = some PropType.float
element PropType.mv_double = some PropType.double
element PropType.mv_currency = some PropType.currency
element PropType.mv_apptime = some PropType.apptime
element PropType.mv_longlong = some PropType.longlong
element PropType.mv_string8 = some PropType.string8
element PropType.mv_unicode = some PropType.unicode
element PropType.mv_systime = some PropType.systime
element PropType.mv_guid = some PropType.guid
element PropType.mv_binary = some PropType.binary
element t = none

abbrev pub Fits : ℕ → PropType → Option PropType → PropValue → Type 0
Fits max_items t none (PropValue.one s) = HasType t s
Fits max_items t none (PropValue.many vs) = ⊥
Fits max_items t (some e) (PropValue.one s) = ⊥
Fits max_items t (some e) (PropValue.many vs) = AreTyped e max_items vs

one_lem :
    (max_items : ℕ) (t : PropType) (r : Result Scalar) (v : PropValue)
    → ((s : Scalar) → r ≡ ok s → HasType t s)
    → one_of r ≡ ok v
    → Fits max_items t none v
one_lem max_items t r v k h =
    let (s, h1, h2) = >>=-eq-ok r _ h in subst (Fits max_items t none) (ok-injective h2) (k s h1)

many_lem :
    (max_items : ℕ) (t e : PropType) (r : Result (List Scalar)) (v : PropValue)
    → ((vs : List Scalar) → r ≡ ok vs → AreTyped e max_items vs)
    → many_of r ≡ ok v
    → Fits max_items t (some e) v
many_lem max_items t e r v k h =
    let (vs, h1, h2) = >>=-eq-ok r _ h in
    subst (Fits max_items t (some e)) (ok-injective h2) (k vs h1)

single :
    (max_items : ℕ) (t : PropType) (bs : Bytes) (v : PropValue)
    → IsBytes bs
    → one_of (decode_one t bs) ≡ ok v
    → Fits max_items t none v
single max_items t bs v b h =
    one_lem max_items t (decode_one t bs) v (λ s e. decode_one-HasType t bs s b e) h

packed :
    (max_items : ℕ) (t e : PropType) (size : ℕ) (bs : Bytes) (v : PropValue)
    → IsBytes bs
    → many_of (decode_mv_fixed e size bs max_items) ≡ ok v
    → Fits max_items t (some e) v
packed max_items t e size bs v b h =
    many_lem max_items t e (decode_mv_fixed e size bs max_items) v
      (λ vs k. mv_fixed_lem e size bs max_items vs b k) h

-- From bytes, `decode` returns a value of the kind that the property type names: an integer or a
-- float in the width of the type, a datetime that Python can hold, or, for a multi-valued type, a
-- tuple of such values with `max_items` elements at most.
pub decode-Fits :
    (codepage : Option Codec) (max_items : ℕ) (t : PropType) (bs : Bytes) (v : PropValue)
    → IsBytes bs
    → decode codepage max_items t bs ≡ ok v
    → Fits max_items t (element t) v
unfolding decode decode_mv_string8 decode_mv_unicode decode_mv_binary
decode-Fits codepage n PropType.string8 bs v b h =
    let (t, _, h1) = >>=-eq-ok (decode_string8 codepage bs) _ h in
    subst (Fits n PropType.string8 none) (ok-injective h1) (t, refl)
decode-Fits codepage n PropType.mv_string8 bs v b h =
    many_lem n PropType.mv_string8 PropType.string8 (decode_mv_string8 codepage bs n) v
      (λ vs k.
        let (codec, _, k1) = >>=-eq-ok (lookup_codepage codepage) _ k in
        variable_lem PropType.string8 (string8_item codec) bs n vs (string8_lem codec) k1)
      h
decode-Fits codepage n PropType.mv_unicode bs v b h =
    many_lem n PropType.mv_unicode PropType.unicode (decode_mv_unicode bs n) v
      (λ vs k. variable_lem PropType.unicode decode_text bs n vs text_lem k) h
decode-Fits codepage n PropType.mv_binary bs v b h =
    many_lem n PropType.mv_binary PropType.binary (decode_mv_binary bs n) v
      (λ vs k.
        variable_lem PropType.binary binary_item bs n vs (λ a s e. (a, sym (ok-injective e))) k)
      h
decode-Fits codepage n PropType.mv_guid bs v b h =
    many_lem n PropType.mv_guid PropType.guid (decode_mv_guid bs n) v
      (λ vs k. mv_guid_lem bs n vs b k) h
decode-Fits codepage n PropType.mv_short bs v b h =
    packed n PropType.mv_short PropType.short 2 bs v b h
decode-Fits codepage n PropType.mv_long bs v b h =
    packed n PropType.mv_long PropType.long 4 bs v b h
decode-Fits codepage n PropType.mv_float bs v b h =
    packed n PropType.mv_float PropType.float 4 bs v b h
decode-Fits codepage n PropType.mv_double bs v b h =
    packed n PropType.mv_double PropType.double 8 bs v b h
decode-Fits codepage n PropType.mv_currency bs v b h =
    packed n PropType.mv_currency PropType.currency 8 bs v b h
decode-Fits codepage n PropType.mv_apptime bs v b h =
    packed n PropType.mv_apptime PropType.apptime 8 bs v b h
decode-Fits codepage n PropType.mv_longlong bs v b h =
    packed n PropType.mv_longlong PropType.longlong 8 bs v b h
decode-Fits codepage n PropType.mv_systime bs v b h =
    packed n PropType.mv_systime PropType.systime 8 bs v b h
decode-Fits codepage n t bs v b h = single n t bs v b h
