-- ===== src/Rtf.antt =====
-- src/pypstreader/rtf.py: the LZFu decompressor behind PR_RTF_COMPRESSED.
--
-- The payload's unread bytes are the argument of the loop, so `pos >= size` is the empty list, and
-- the loop ends because each step reads a byte. `bit` counts the tokens of a run that are done;
-- at 8 a control byte follows.
pub mod Dictionary
pub mod Window
pub mod Lz77
pub mod Bounds
use pypst_reader.Prelude.{
  ℕ, zero, suc, ◌+◌, ◌-◌, ◌*◌, ◌/◌, ◌%◌, ◌^◌, ◌<◌, Bool, List, [], ◌∷◌, ◌++◌, ltb, leb, ◌==◌,
  length, take, drop, set, Option, none, some, get_or, replicate, if◌then◌else◌,
}
use pypst_reader.Error.{Result, ok, err, stuck, format, limit, require, ◌>>=◌, ◌>>◌}
use pypst_reader.Bytes.{Bytes, u32, need}
use pypst_reader.Crc.{compute_crc}
use pypst_reader.Rtf.Dictionary.{initial_dictionary}

pub data CompressionType : Type 0 where
  compressed uncompressed : CompressionType

pub record CompressedRtfHeader : Type 0 where
  pub comp_size : ℕ
  pub raw_size : ℕ
  pub comp_type : CompressionType
  pub crc : ℕ

-- CompressionType(value)
compression_type : ℕ → Result CompressionType
compression_type v =
    if v == 0x75465A4C
    then ok compressed
    else if v == 0x414C454D
    then ok uncompressed
    else err format

unfoldable pub read_header : Bytes → Result CompressedRtfHeader
unfolding compression_type
read_header bs = do
  require (leb 16 (length bs)) format
  require (u32 bs 0 + 4 == length bs) format
  comp_type ← compression_type (u32 bs 8)
  ok (record { comp_size = u32 bs 0; raw_size = u32 bs 4; comp_type = comp_type; crc = u32 bs 12 })

abbrev pub dictionary_size : ℕ
dictionary_size = 4096

pub record Decoder : Type 0 where
  pub dictionary : Bytes
  pub write : ℕ
  pub end : ℕ
  pub output : Bytes

unfoldable pub start : Decoder
unfolding initial_dictionary
start = record {
  dictionary = initial_dictionary ++ replicate (dictionary_size - length initial_dictionary) 0;
  write = length initial_dictionary;
  end = length initial_dictionary;
  output = [];
}

-- One byte out and into the dictionary.
unfoldable pub emit : Decoder → ℕ → Decoder
emit d byte = record {
  dictionary = set d.dictionary d.write byte;
  write = (d.write + 1) % dictionary_size;
  end = if ltb d.end dictionary_size then d.end + 1 else d.end;
  output = d.output ++ byte ∷ [];
}

-- for _ in range(length)
unfoldable pub copy : ℕ → ℕ → Decoder → Decoder
unfolding emit
copy zero read d = d
copy (suc n) read d = copy n ((read + 1) % dictionary_size) (emit d (get_or d.dictionary read 0))

-- A dictionary reference: `none` is the terminator, else the decoder after the copy.
unfoldable pub reference : ℕ → ℕ → Decoder → Result (Option Decoder)
reference max_output token d =
    let offset = token / 2 ^ 4 in
    let count = token % 2 ^ 4 + 2 in
    if offset == d.write
    then ok none
    else if leb d.end offset
    then err format
    else if ltb max_output (length d.output + count)
    then err limit
    else ok (some (copy count offset d))

-- `control & (1 << bit)`
abbrev pub is_reference : ℕ → ℕ → Bool
is_reference control bit = control / 2 ^ bit % 2 == 1

-- What follows a reference: the output at the terminator, else the rest of the payload.
abbrev pub after : Result (Option Decoder) → Decoder → (Decoder → Result Bytes) → Result Bytes
after (ok none) d rest = ok d.output
after (ok (some d')) d rest = rest d'
after (err e) d rest = err e
after stuck d rest = stuck

unfoldable pub lzfu : ℕ → Bytes → ℕ → ℕ → Decoder → Result Bytes
unfolding emit
lzfu max_output [] control bit d = err format
lzfu max_output (x ∷ []) control bit d =
    let run = lzfu max_output [] x 0 d in
    let literal = lzfu max_output [] control (bit + 1) (emit d x) in
    if bit == 8
    then run
    else if is_reference control bit
    then err format
    else if leb max_output (length d.output)
    then err limit
    else literal
lzfu max_output (x ∷ y ∷ rest) control bit d =
    let run = lzfu max_output (y ∷ rest) x 0 d in
    let literal = lzfu max_output (y ∷ rest) control (bit + 1) (emit d x) in
    let more = λ (d' : Decoder). lzfu max_output rest control (bit + 1) d' in
    if bit == 8
    then run
    else if is_reference control bit
    then after (reference max_output (x * 2 ^ 8 + y) d) d more
    else if leb max_output (length d.output)
    then err limit
    else literal

unfoldable pub decompress_lzfu : Bytes → ℕ → Result Bytes
decompress_lzfu payload max_output = lzfu max_output payload 0 8 start

decompress_payload : CompressionType → CompressedRtfHeader → Bytes → ℕ → Result Bytes
decompress_payload uncompressed header payload max_output =
    if ltb (length payload) header.raw_size then err format else ok (take header.raw_size payload)
decompress_payload compressed header payload max_output =
    if compute_crc 0 payload == header.crc then decompress_lzfu payload max_output else err format

unfoldable pub decompress_rtf : Bytes → ℕ → Result Bytes
unfolding decompress_payload read_header
decompress_rtf bs max_output = do
  header ← read_header bs
  require (leb header.raw_size max_output) limit
  decompress_payload header.comp_type header (drop 16 bs) max_output
