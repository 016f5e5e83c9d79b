-- ===== src/PropType.antt =====
-- src/pypstreader/ltp/prop_type.py: property types, and the decoders of their values.
--
-- A value's text is the list of its code points. A float is its bit pattern, since nothing
-- computes with it. A code page is what `codecs.lookup` returns for its name: none if Python lacks
-- it, else a decoder of whole byte strings, which refuses what is no text in that code page.
pub mod Value
pub mod Filetime
pub mod Text
pub mod Multi
pub mod Decode
pub mod Clock
pub mod Utf16
pub mod Items
pub mod Typed
pub mod Decoded
use pypst_reader.Prelude.{
  ℕ, Bool, true, false, List, [], ◌∷◌, ltb, ◌==◌, if◌then◌else◌, Option, none, some,
}
use pypst_reader.Error.{Result, ok, err, format, unsupported}

-- `CLSID` is another name of `GUID`.
pub data PropType : Type 0 where
  unspecified null short long float double currency apptime error boolean object longlong : PropType
  string8 unicode systime guid binary : PropType
  mv_short mv_long mv_float mv_double mv_currency mv_apptime mv_longlong : PropType
  mv_string8 mv_unicode mv_systime mv_guid mv_binary : PropType

unfoldable pub code : PropType → ℕ
code unspecified = 0x0000
code null = 0x0001
code short = 0x0002
code long = 0x0003
code float = 0x0004
code double = 0x0005
code currency = 0x0006
code apptime = 0x0007
code error = 0x000A
code boolean = 0x000B
code object = 0x000D
code longlong = 0x0014
code string8 = 0x001E
code unicode = 0x001F
code systime = 0x0040
code guid = 0x0048
code binary = 0x0102
code mv_short = 0x1002
code mv_long = 0x1003
code mv_float = 0x1004
code mv_double = 0x1005
code mv_currency = 0x1006
code mv_apptime = 0x1007
code mv_longlong = 0x1014
code mv_string8 = 0x101E
code mv_unicode = 0x101F
code mv_systime = 0x1040
code mv_guid = 0x1048
code mv_binary = 0x1102

-- The members of the enumeration, in its order.
abbrev pub members : List PropType
members =
    unspecified ∷ null ∷ short ∷ long ∷ float ∷ double ∷ currency ∷ apptime ∷ error ∷ boolean
    ∷ object ∷ longlong ∷ string8 ∷ unicode ∷ systime ∷ guid ∷ binary ∷ mv_short ∷ mv_long
    ∷ mv_float ∷ mv_double ∷ mv_currency ∷ mv_apptime ∷ mv_longlong ∷ mv_string8 ∷ mv_unicode
    ∷ mv_systime ∷ mv_guid ∷ mv_binary ∷ []

-- PropType(value), among the given members.
unfoldable pub member : ℕ → List PropType → Option PropType
unfolding code
member value [] = none
member value (t ∷ ts) = if code t == value then some t else member value ts

unfoldable pub named : Option PropType → Result PropType
named none = err unsupported
named (some t) = ok t

unfoldable pub from_wire : ℕ → Result PropType
unfolding member named
from_wire value =
    if ltb 0xFFFF value
    then err format
    else if value == 0
    then err unsupported
    else named (member value members)

-- The width of each fixed-size type, and none for the others.
unfoldable pub width_of : PropType → Option ℕ
width_of null = some 0
width_of short = some 2
width_of long = some 4
width_of float = some 4
width_of double = some 8
width_of currency = some 8
width_of apptime = some 8
width_of error = some 4
width_of boolean = some 1
width_of longlong = some 8
width_of systime = some 8
width_of guid = some 16
width_of unspecified = none
width_of object = none
width_of string8 = none
width_of unicode = none
width_of binary = none
width_of mv_short = none
width_of mv_long = none
width_of mv_float = none
width_of mv_double = none
width_of mv_currency = none
width_of mv_apptime = none
width_of mv_longlong = none
width_of mv_string8 = none
width_of mv_unicode = none
width_of mv_systime = none
width_of mv_guid = none
width_of mv_binary = none

unfoldable pub is_fixed_size : PropType → Bool
unfolding width_of
is_fixed_size t = elim (width_of t) [ none ↦ false | some n ↦ true ]

unfoldable pub fixed_size : PropType → Result ℕ
unfolding width_of
fixed_size t = elim (width_of t) [ none ↦ err format | some n ↦ ok n ]
