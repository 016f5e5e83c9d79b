-- ===== src/Tests/Codecs.antt =====
-- The theorems on ids, limits, transforms, checksums and RTF at concrete inputs.
use pypst_reader.Prelude.{◌^◌, ◌<◌, ◌≤◌, ◌≡◌, refl, [], ◌∷◌, ◌++◌, length, arith}
use pypst_reader.Error.{ok}
use pypst_reader.Bytes.{Bytes, IsBytes}
use pypst_reader.Limits.{VisitedSet, add, contains}
use pypst_reader.Limits.Visited.{IsWellFormed}
use pypst_reader.Ids.NodeId
use pypst_reader.Ids.NodeId.{NodeId, NodeIdType, id_type, max_node_index}
use pypst_reader.Ids.BlockId.{BlockId, search_key}
use pypst_reader.Ids.Refs.{BlockRef}
use pypst_reader.Encode.{decode_permute, encode_permute, encode_decode_cyclic}
use pypst_reader.Encode.Inverse.{cyclic-cyclic, permute_inverse}
use pypst_reader.Crc.{compute_crc, compute_sig, crc_register}
use pypst_reader.Crc.Stream.{compute_crc-register, compute_crc-append}
use pypst_reader.Rtf.{decompress_lzfu, decompress_rtf}
use pypst_reader.Rtf.Dictionary.{initial_dictionary}
use pypst_reader.Rtf.Window.{lz77}
use pypst_reader.Rtf.Lz77.{decompress_lzfu-lz77}
use pypst_reader.Rtf.Bounds.{length-decompress_rtf}

abbrev two_seen : VisitedSet
two_seen = record { seen = 512 ∷ 0 ∷ []; ceiling = 3 }

abbrev three_seen : VisitedSet
three_seen = record { seen = 1024 ∷ 512 ∷ 0 ∷ []; ceiling = 3 }

two_seen-IsWellFormed : IsWellFormed two_seen
unfolding contains
two_seen-IsWellFormed = record { distinct = (refl, (refl, tt)); bounded = omega arith }

add_two : add two_seen 1024 ≡ ok three_seen
unfolding add contains
add_two = refl

abbrev inbox : NodeId
inbox = record { raw = 0x8082 }

inbox_type : id_type inbox ≡ ok NodeIdType.normal_folder
unfolding pypst_reader.Ids.NodeId.id_type pypst_reader.Ids.NodeId.some_type
    pypst_reader.Ids.NodeId.type_of_value
inbox_type = refl

abbrev four : BlockId
four = record { raw = 4 }

abbrev five : BlockId
five = record { raw = 5 }

one_key : search_key four ≡ search_key five
unfolding search_key
one_key = refl

abbrev some_ref : BlockRef
some_ref = record { block = record { raw = 8 }; index = record { value = 512 } }

abbrev word : Bytes
word = 80 ∷ 83 ∷ 84 ∷ 255 ∷ 0 ∷ []

word-IsBytes : IsBytes word
word-IsBytes = (omega arith, (omega arith, (omega arith, (omega arith, (omega arith, tt)))))

cyclic-cyclic_example :
    encode_decode_cyclic (encode_decode_cyclic word 0x12345678) 0x12345678 ≡ word
cyclic-cyclic_example = cyclic-cyclic word 0x12345678 word-IsBytes

permute_inverse_example :
    (decode_permute (encode_permute word) ≡ word) × (encode_permute (decode_permute word) ≡ word)
permute_inverse_example = permute_inverse word word-IsBytes

compute_crc-register_example :
    (compute_crc 7 word ≡ crc_register 7 word) × (compute_crc 7 word < 2 ^ 32)
compute_crc-register_example = compute_crc-register 7 word (omega arith) word-IsBytes

compute_crc-append_example : compute_crc (compute_crc 7 word) word ≡ compute_crc 7 (word ++ word)
compute_crc-append_example = compute_crc-append 7 word word (omega arith) word-IsBytes word-IsBytes

-- A literal "A", then the reference that ends the run.
abbrev payload : Bytes
payload = 2 ∷ 65 ∷ 13 ∷ 0 ∷ []

payload-IsBytes : IsBytes payload
payload-IsBytes = (omega arith, (omega arith, (omega arith, (omega arith, tt))))

decompress_lzfu-lz77_example : decompress_lzfu payload 10 ≡ lz77 217 payload 0 8 initial_dictionary
decompress_lzfu-lz77_example = decompress_lzfu-lz77 payload 10 payload-IsBytes

abbrev compressed_rtf : Bytes
compressed_rtf =
    (16 ∷ 0 ∷ 0 ∷ 0 ∷ 1 ∷ 0 ∷ 0 ∷ 0 ∷ 0x4C ∷ 0x5A ∷ 0x46 ∷ 0x75 ∷ 49 ∷ 81 ∷ 255 ∷ 110 ∷ [])
    ++ payload

abbrev letter : Bytes
letter = 65 ∷ []

decompress_letter : decompress_rtf compressed_rtf 10 ≡ ok letter
unfolding pypst_reader.Bytes.field pypst_reader.Bytes.from_bytes pypst_reader.Bytes.slice
    pypst_reader.Crc.compute_crc pypst_reader.Crc.crc_register pypst_reader.Crc.zlib_crc32
    pypst_reader.Rtf.Dictionary.initial_dictionary pypst_reader.Rtf.copy
    pypst_reader.Rtf.decompress_lzfu pypst_reader.Rtf.decompress_rtf pypst_reader.Rtf.emit
    pypst_reader.Rtf.lzfu pypst_reader.Rtf.read_header pypst_reader.Rtf.reference
    pypst_reader.Rtf.start
decompress_letter = refl

length-decompress_rtf_example : length letter ≤ 10
length-decompress_rtf_example = length-decompress_rtf compressed_rtf 10 decompress_letter
