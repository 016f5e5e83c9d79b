-- ===== src/PropType/Typed.antt =====
-- What kind of value `decode` returns for each property type.
use mathlib.Core.Path.{subst}
use pypst_reader.Prelude.{ℕ, ◌-◌, ◌*◌, ◌^◌, ◌<◌, ◌≡◌, refl, sym, arith, Bool, leb, ◌==◌}
use pypst_reader.Error.{Result, ok, err, format, require, >>=-eq-ok, ok-injective}
use pypst_reader.Bytes.{Bytes, IsBytes, u8, u16, u32, u64}
use pypst_reader.Bytes.RoundTrip.{field-lt}
use pypst_reader.PropType.{PropType}
use pypst_reader.PropType.Value.{pos, negsuc, signed, Scalar, DateTime, Uuid, ObjectRef, Text}
use pypst_reader.PropType.Filetime.{filetime_to_datetime}
use pypst_reader.PropType.Clock.{IsDateTime, filetime_to_datetime_exact}
use pypst_reader.PropType.Text.{decode_unicode}
use pypst_reader.PropType.Multi.{
  exact, decode_int, decode_float, decode_boolean, decode_systime, decode_guid, decode_object,
  decode_text, decode_null, decode_one, uuid_of,
}

-- An integer of `bits` bits in two's complement.
abbrev pub IsInt : ℕ → Scalar → Type 0
IsInt bits (Scalar.int (pos n)) = n < 2 ^ (bits - 1)
IsInt bits (Scalar.int (negsuc n)) = n < 2 ^ (bits - 1)
IsInt bits s = ⊥

abbrev pub IsFloat : ℕ → Scalar → Type 0
IsFloat bits (Scalar.float_bits w v) = (w ≡ bits) × (v < 2 ^ bits)
IsFloat bits s = ⊥

-- The values of a single-valued type.
abbrev pub HasType : PropType → Scalar → Type 0
HasType PropType.null v = v ≡ Scalar.nothing
HasType PropType.short v = IsInt 16 v
HasType PropType.long v = IsInt 32 v
HasType PropType.float v = IsFloat 32 v
HasType PropType.double v = IsFloat 64 v
HasType PropType.currency v = IsInt 64 v
HasType PropType.apptime v = IsFloat 64 v
HasType PropType.error v = IsInt 32 v
HasType PropType.boolean v = (b : Bool) × (v ≡ Scalar.bool b)
HasType PropType.longlong v = IsInt 64 v
HasType PropType.systime v = (d : DateTime) × (v ≡ Scalar.time d) × IsDateTime d
HasType PropType.guid v = (u : Uuid) × (v ≡ Scalar.uuid u)
HasType PropType.object v = (o : ObjectRef) × (v ≡ Scalar.object_ref o)
HasType PropType.binary v = (b : Bytes) × (v ≡ Scalar.bytes b)
HasType PropType.unicode v = (t : Text) × (v ≡ Scalar.text t)
HasType PropType.string8 v = (t : Text) × (v ≡ Scalar.text t)
HasType t v = ⊥

signed-IsInt :
    (bits v : ℕ)
    → 2 ^ bits ≡ 2 * 2 ^ (bits - 1)
    → v < 2 ^ bits
    → IsInt bits (Scalar.int (signed bits v))
unfolding signed
signed-IsInt bits v half lt = ground arith

decode_int-IsInt :
    (size value : ℕ) (bs : Bytes) (s : Scalar)
    → 2 ^ (8 * size) ≡ 2 * 2 ^ (8 * size - 1)
    → value < 2 ^ (8 * size)
    → decode_int size value bs ≡ ok s
    → IsInt (8 * size) s
unfolding decode_int
decode_int-IsInt size value bs s half lt h =
    let (_, _, h1) = >>=-eq-ok (exact bs size) _ h in
    subst (IsInt (8 * size)) (ok-injective h1) (signed-IsInt (8 * size) value half lt)

decode_float-IsFloat :
    (size value : ℕ) (bs : Bytes) (s : Scalar)
    → value < 2 ^ (8 * size)
    → decode_float size value bs ≡ ok s
    → IsFloat (8 * size) s
unfolding decode_float
decode_float-IsFloat size value bs s lt h =
    let (_, _, h1) = >>=-eq-ok (exact bs size) _ h in
    subst (IsFloat (8 * size)) (ok-injective h1) (refl, lt)

systime_lem : (bs : Bytes) (s : Scalar) → decode_systime bs ≡ ok s → HasType PropType.systime s
unfolding decode_systime
systime_lem bs s h =
    let (_, _, h1) = >>=-eq-ok (exact bs 8) _ h in
    let (d, h2, h3) = >>=-eq-ok (filetime_to_datetime (signed 64 (u64 bs 0))) _ h1 in
    (d, sym (ok-injective h3), (filetime_to_datetime_exact (signed 64 (u64 bs 0)) d h2).0)

boolean_lem : (bs : Bytes) (s : Scalar) → decode_boolean bs ≡ ok s → HasType PropType.boolean s
unfolding decode_boolean
boolean_lem bs s h =
    let (_, _, h1) = >>=-eq-ok (exact bs 1) _ h in
    let (_, _, h2) = >>=-eq-ok (require (leb (u8 bs 0) 1) format) _ h1 in
    (u8 bs 0 == 1, sym (ok-injective h2))

pub guid_lem : (bs : Bytes) (s : Scalar) → decode_guid bs ≡ ok s → HasType PropType.guid s
unfolding decode_guid
guid_lem bs s h =
    let (_, _, h1) = >>=-eq-ok (exact bs 16) _ h in (uuid_of bs, sym (ok-injective h1))

object_lem : (bs : Bytes) (s : Scalar) → decode_object bs ≡ ok s → HasType PropType.object s
unfolding decode_object
object_lem bs s h =
    let (_, _, h1) = >>=-eq-ok (exact bs 8) _ h in
    (record { node = record { raw = u32 bs 0 }; size = u32 bs 4 }, sym (ok-injective h1))

pub text_lem : (bs : Bytes) (s : Scalar) → decode_text bs ≡ ok s → HasType PropType.unicode s
unfolding decode_text
text_lem bs s h = let (t, _, h1) = >>=-eq-ok (decode_unicode bs) _ h in (t, sym (ok-injective h1))

null_lem : (bs : Bytes) (s : Scalar) → decode_null bs ≡ ok s → HasType PropType.null s
unfolding decode_null
null_lem bs s h = let (_, _, h1) = >>=-eq-ok (exact bs 0) _ h in sym (ok-injective h1)

pub refuses :
    (t : PropType) (s : Scalar) → ◌≡◌ {A = Result Scalar} (err format) (ok s) → HasType t s
refuses t s h = absurd (never h)
  where
    never : ◌≡◌ {A = Result Scalar} (err format) (ok s) → ⊥
    never e = cc

int16 : (bs : Bytes) (s : Scalar) → IsBytes bs → decode_int 2 (u16 bs 0) bs ≡ ok s → IsInt 16 s
int16 bs s b h =
    decode_int-IsInt 2 (u16 bs 0) bs s (omega arith) (omega (arith, field-lt 2 bs 0 b)) h

int32 : (bs : Bytes) (s : Scalar) → IsBytes bs → decode_int 4 (u32 bs 0) bs ≡ ok s → IsInt 32 s
int32 bs s b h =
    decode_int-IsInt 4 (u32 bs 0) bs s (omega arith) (omega (arith, field-lt 4 bs 0 b)) h

int64 : (bs : Bytes) (s : Scalar) → IsBytes bs → decode_int 8 (u64 bs 0) bs ≡ ok s → IsInt 64 s
int64 bs s b h =
    decode_int-IsInt 8 (u64 bs 0) bs s (omega arith) (omega (arith, field-lt 8 bs 0 b)) h

float64 :
    (bs : Bytes) (s : Scalar) → IsBytes bs → decode_float 8 (u64 bs 0) bs ≡ ok s → IsFloat 64 s
float64 bs s b h = decode_float-IsFloat 8 (u64 bs 0) bs s (omega (arith, field-lt 8 bs 0 b)) h

pub decode_one-HasType :
    (t : PropType) (bs : Bytes) (s : Scalar) → IsBytes bs → decode_one t bs ≡ ok s → HasType t s
unfolding decode_one
decode_one-HasType PropType.null bs s b h = null_lem bs s h
decode_one-HasType PropType.short bs s b h = int16 bs s b h
decode_one-HasType PropType.long bs s b h = int32 bs s b h
decode_one-HasType PropType.float bs s b h =
    decode_float-IsFloat 4 (u32 bs 0) bs s (omega (arith, field-lt 4 bs 0 b)) h
decode_one-HasType PropType.double bs s b h = float64 bs s b h
decode_one-HasType PropType.currency bs s b h = int64 bs s b h
decode_one-HasType PropType.apptime bs s b h = float64 bs s b h
decode_one-HasType PropType.error bs s b h = int32 bs s b h
decode_one-HasType PropType.boolean bs s b h = boolean_lem bs s h
decode_one-HasType PropType.longlong bs s b h = int64 bs s b h
decode_one-HasType PropType.systime bs s b h = systime_lem bs s h
decode_one-HasType PropType.guid bs s b h = guid_lem bs s h
decode_one-HasType PropType.object bs s b h = object_lem bs s h
decode_one-HasType PropType.binary bs s b h = (bs, sym (ok-injective h))
decode_one-HasType PropType.unicode bs s b h = text_lem bs s h
decode_one-HasType t bs s b h = refuses t s h
