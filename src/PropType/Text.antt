-- ===== src/PropType/Text.antt =====
-- The text decoders of src/pypstreader/ltp/prop_type.py.
--
-- `raw.decode("utf-16-le", "strict")` is written out from its documentation: a unit outside
-- 0xD800..0xDFFF is a code point, a high surrogate with a low one after it is one code point, and
-- any other surrogate is refused.
use pypst_reader.Prelude.{
  ℕ, zero, suc, ◌+◌, ◌-◌, ◌*◌, ◌%◌, ◌^◌, ◌&&◌, [], ◌∷◌, ltb, leb, ◌==◌, length, take, drop,
  if◌then◌else◌, Option, none, some,
}
use mathlib.Core.Option
use pypst_reader.Error.{Result, ok, err, format, unsupported, require, ◌>>=◌, ◌>>◌}
use pypst_reader.Bytes.{Bytes}
use pypst_reader.PropType.Value.{Text, Codec}

-- raw.find(b"\0"), as the bytes before it.
unfoldable pub before_nul : Bytes → Bytes
before_nul [] = []
before_nul (b ∷ bs) = if b == 0 then [] else b ∷ before_nul bs

unfoldable pub refused : Option Text → Result Text
refused none = err format
refused (some t) = ok t

unfoldable pub decode_string8_bytes : Bytes → Codec → Result Text
unfolding before_nul refused
decode_string8_bytes raw codec = refused (codec (before_nul raw))

-- `_lookup_codepage`
unfoldable pub lookup_codepage : Option Codec → Result Codec
lookup_codepage none = err unsupported
lookup_codepage (some codec) = ok codec

unfoldable pub decode_string8 : Option Codec → Bytes → Result Text
unfolding lookup_codepage
decode_string8 codepage raw = do codec ← lookup_codepage codepage; decode_string8_bytes raw codec

-- bs.find(b"\0\0")
unfoldable pub find_double : Bytes → Option ℕ
find_double [] = none
find_double (a ∷ []) = none
find_double (a ∷ b ∷ rest) =
    if a == 0 && b == 0 then some 0 else Option.map (λ k. k + 1) (find_double (b ∷ rest))

-- while (nul := raw.find(b"\0\0", start)) >= 0: the bytes that are kept.
unfoldable pub truncate : ℕ → Bytes → ℕ → Bytes
truncate zero raw start = raw
truncate (suc fuel) raw start = elim (find_double (drop start raw)) [
  | none ↦ raw
  | some k ↦
      if (start + k) % 2 == 0 then take (start + k) raw else truncate fuel raw (start + k + 1)
]

unfoldable pub utf_16_le : Bytes → Option Text
utf_16_le [] = some []
utf_16_le (a ∷ []) = none
utf_16_le (a ∷ b ∷ []) =
    let unit = a + 256 * b in
    if ltb unit 0xD800 then some (unit ∷ []) else if leb 0xE000 unit then some (unit ∷ []) else none
utf_16_le (a ∷ b ∷ c ∷ []) = none
utf_16_le (a ∷ b ∷ c ∷ d ∷ rest) =
    let unit = a + 256 * b in
    let low = c + 256 * d in
    let next = utf_16_le (c ∷ d ∷ rest) in
    let after_pair = utf_16_le rest in
    if ltb unit 0xD800
    then Option.map (λ t. unit ∷ t) next
    else if leb 0xE000 unit
    then Option.map (λ t. unit ∷ t) next
    else if leb 0xDC00 unit
    then none
    else if leb 0xDC00 low && ltb low 0xE000
    then Option.map (λ t. (0x10000 + (unit - 0xD800) * 2 ^ 10 + (low - 0xDC00)) ∷ t) after_pair
    else none

unfoldable pub decode_unicode : Bytes → Result Text
unfolding refused
decode_unicode raw = do
  require (length raw % 2 == 0) format
  refused (utf_16_le (truncate (length raw) raw 0))
