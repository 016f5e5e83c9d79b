-- ===== src/Tests/Values.antt =====
-- The theorems on property values at small values.
use pypst_reader.Prelude.{
  ℕ, ◌%◌, ◌≤◌, ◌+◌, ◌*◌, ◌≡◌, refl, ◌⊎◌, List, [], ◌∷◌, length, drop, none, arith,
}
use pypst_reader.Error.{ok}
use pypst_reader.Bytes.{Bytes, IsBytes, u32}
use pypst_reader.PropType.{PropType}
use pypst_reader.PropType.Value.{DateTime, PropValue, Scalar, pos}
use pypst_reader.PropType.Filetime.{datetime_to_filetime, filetime_to_datetime}
use pypst_reader.PropType.Clock.{IsDateTime, filetime_round_trip, filetime_to_datetime_exact}
use pypst_reader.PropType.Text.{truncate}
use pypst_reader.PropType.Utf16.{units_before, truncate-units_before}
use pypst_reader.PropType.Multi.{mv_variable_items}
use pypst_reader.PropType.Items.{mv_variable_items_exact}
use pypst_reader.PropType.Decode.{decode}
use pypst_reader.PropType.Decoded.{Fits, element, decode-Fits}
use pypst_reader.Block.Walks.{join}

-- 1999-12-31, a second before midnight.
abbrev new_year : DateTime
new_year = record { days = 145730; seconds = 86399; microseconds = 999999 }

new_year-IsDateTime : IsDateTime new_year
new_year-IsDateTime = record {
  days_le = omega arith;
  seconds_lt = omega arith;
  microseconds_lt = omega arith;
}

filetime_round_trip_example :
    filetime_to_datetime (pos (datetime_to_filetime new_year)) ≡ ok new_year
filetime_round_trip_example = filetime_round_trip new_year new_year-IsDateTime

abbrev one_day : DateTime
one_day = record { days = 1; seconds = 0; microseconds = 1 }

read_one_day : filetime_to_datetime (pos 864000000017) ≡ ok one_day
unfolding pypst_reader.PropType.Filetime.filetime_to_datetime
    pypst_reader.PropType.Filetime.timedelta
read_one_day = refl

filetime_to_datetime_exact_example :
    IsDateTime one_day
    × (n : ℕ) × (pos 864000000017 ≡ pos n)
    × (datetime_to_filetime one_day + n % 10 ≡ n)
filetime_to_datetime_exact_example =
    filetime_to_datetime_exact (pos 864000000017) one_day read_one_day

-- Two units, the last with the high byte that is also the low one of a zero pair, then zero.
abbrev odd_pair : Bytes
odd_pair = 65 ∷ 0 ∷ 0 ∷ 1 ∷ 0 ∷ 0 ∷ 66 ∷ 0 ∷ []

truncate-units_before_example : truncate (length odd_pair) odd_pair 0 ≡ units_before odd_pair
truncate-units_before_example = truncate-units_before odd_pair

odd_pair_cut : truncate 8 odd_pair 0 ≡ 65 ∷ 0 ∷ 0 ∷ 1 ∷ []
unfolding pypst_reader.PropType.Text.find_double pypst_reader.PropType.Text.truncate
odd_pair_cut = refl

-- Two items, of one byte and of two.
abbrev two_items : Bytes
two_items = 2 ∷ 0 ∷ 0 ∷ 0 ∷ 12 ∷ 0 ∷ 0 ∷ 0 ∷ 13 ∷ 0 ∷ 0 ∷ 0 ∷ 7 ∷ 8 ∷ 9 ∷ []

abbrev cut_items : List Bytes
cut_items = (7 ∷ []) ∷ (8 ∷ 9 ∷ []) ∷ []

cut_two_items : mv_variable_items two_items 5 ≡ ok cut_items
unfolding pypst_reader.Bytes.field pypst_reader.Bytes.from_bytes pypst_reader.Bytes.slice
    pypst_reader.PropType.Multi.check_count pypst_reader.PropType.Multi.cut
    pypst_reader.PropType.Multi.cut_all pypst_reader.PropType.Multi.item_between
    pypst_reader.PropType.Multi.mv_variable_items pypst_reader.PropType.Multi.offsets
cut_two_items = refl

mv_variable_items_exact_example :
    (length cut_items ≡ u32 two_items 0)
    × (length cut_items ≤ 5)
    × ((length cut_items ≡ 0) ⊎ (join cut_items ≡ drop (4 * (u32 two_items 0 + 1)) two_items))
mv_variable_items_exact_example = mv_variable_items_exact two_items 5 cut_items cut_two_items

abbrev two_longs : Bytes
two_longs = 1 ∷ 0 ∷ 0 ∷ 0 ∷ 2 ∷ 0 ∷ 0 ∷ 0 ∷ []

two_longs-IsBytes : IsBytes two_longs
two_longs-IsBytes = (
  omega arith,
  (
    omega arith,
    (omega arith, (omega arith, (omega arith, (omega arith, (omega arith, (omega arith, tt)))))),
  ),
)

abbrev one_and_two : PropValue
one_and_two = PropValue.many (Scalar.int (pos 1) ∷ Scalar.int (pos 2) ∷ [])

two_longs_read : decode none 5 PropType.mv_long two_longs ≡ ok one_and_two
unfolding pypst_reader.Bytes.field pypst_reader.Bytes.from_bytes pypst_reader.Bytes.slice
    pypst_reader.PropType.Decode.base_of pypst_reader.PropType.Decode.decode
    pypst_reader.PropType.Decode.decode_mv_binary pypst_reader.PropType.Decode.decode_mv_string8
    pypst_reader.PropType.Decode.decode_mv_unicode pypst_reader.PropType.Decode.decode_rest
    pypst_reader.PropType.Filetime.filetime_to_datetime pypst_reader.PropType.Filetime.timedelta
    pypst_reader.PropType.Multi.check_count pypst_reader.PropType.Multi.cut
    pypst_reader.PropType.Multi.cut_all pypst_reader.PropType.Multi.decode_boolean
    pypst_reader.PropType.Multi.decode_float pypst_reader.PropType.Multi.decode_guid
    pypst_reader.PropType.Multi.decode_int pypst_reader.PropType.Multi.decode_mv_fixed
    pypst_reader.PropType.Multi.decode_mv_guid pypst_reader.PropType.Multi.decode_null
    pypst_reader.PropType.Multi.decode_object pypst_reader.PropType.Multi.decode_one
    pypst_reader.PropType.Multi.decode_systime pypst_reader.PropType.Multi.decode_text
    pypst_reader.PropType.Multi.each pypst_reader.PropType.Multi.exact
    pypst_reader.PropType.Multi.item_between pypst_reader.PropType.Multi.mv_variable_items
    pypst_reader.PropType.Multi.offsets pypst_reader.PropType.Multi.pieces
    pypst_reader.PropType.Text.before_nul pypst_reader.PropType.Text.decode_string8
    pypst_reader.PropType.Text.decode_string8_bytes pypst_reader.PropType.Text.decode_unicode
    pypst_reader.PropType.Text.find_double pypst_reader.PropType.Text.lookup_codepage
    pypst_reader.PropType.Text.refused pypst_reader.PropType.Text.truncate
    pypst_reader.PropType.Text.utf_16_le pypst_reader.PropType.Value.signed
two_longs_read = refl

decode-Fits_example : Fits 5 PropType.mv_long (element PropType.mv_long) one_and_two
decode-Fits_example =
    decode-Fits none 5 PropType.mv_long two_longs one_and_two two_longs-IsBytes two_longs_read
