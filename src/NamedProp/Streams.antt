-- ===== src/NamedProp/Streams.antt =====
-- The streams of the map in src/pypstreader/messaging/named_prop.py, and the number of buckets.
use pypst_reader.Prelude.{
  ℕ, zero, suc, ◌+◌, ◌-◌, ◌%◌, ◌/◌, List, length, ltb, leb, ◌==◌, if◌then◌else◌, Option, none, some,
}
use pypst_reader.Error.{Result, ok, err, format, escaped, require}
use pypst_reader.Bytes.{Bytes, u32, slice}
use pypst_reader.Limits.{check_count}
use pypst_reader.PropType.Value.{Uuid, PropValue, Scalar, pos, negsuc}
use pypst_reader.PropContext
use pypst_reader.PropContext.{all_records}
use pypst_reader.PropContext.Records.{PropertyRecord, find_record}
use pypst_reader.TableContext.Info.{is_long}
use pypst_reader.NamedProp.Entry.{NameIdEntry, unpack_entries}
use pypst_reader.NamedProp.State.{Action, pure, lift, in_context, ◌>>=◌, ◌>>◌}
use pypst_reader.NamedProp.Lists.{unpack_guids, highest}

-- `isinstance(value, bytes)`
unfoldable pub as_bytes : PropValue → Result Bytes
as_bytes (PropValue.one (Scalar.bytes bs)) = ok bs
as_bytes v = err format

unfoldable pub stream_of : Option PropertyRecord → Action Bytes
unfolding as_bytes
stream_of none = lift (err format)
stream_of (some r) = do v ← in_context (λ c. PropContext.read c r); lift (as_bytes v)

-- `_stream`
unfoldable pub stream : ℕ → Action Bytes
unfolding stream_of
stream i = do records ← in_context all_records; stream_of (find_record i records)

-- `self._limits.max_items`
unfoldable pub max_items : Action ℕ
max_items m = (ok m.limits.max_items, m)

unfoldable pub keep_guids : List Uuid → Action (List Uuid)
keep_guids found m = (ok found, record m { guids = some found })

unfoldable pub cached_guids : Option (List Uuid) → Action (List Uuid)
unfolding stream max_items keep_guids unpack_guids
cached_guids (some found) = pure found
cached_guids none = do
  bytes ← stream 2
  lift (require (length bytes % 16 == 0) format)
  ceiling ← max_items
  lift (check_count (length bytes / 16) ceiling)
  keep_guids (unpack_guids bytes (length bytes / 16) 0)

unfoldable pub guids : Action (List Uuid)
unfolding cached_guids
guids m = cached_guids m.guids m

unfoldable pub keep_entries : List NameIdEntry → Action (List NameIdEntry)
keep_entries found m = (ok found, record m { entries = some found })

-- The entries of a stream or a bucket: a whole number of them, within the ceiling.
unfoldable pub entries_in : Bytes → Action (List NameIdEntry)
unfolding max_items unpack_entries
entries_in bytes = do
  lift (require (length bytes % 8 == 0) format)
  ceiling ← max_items
  lift (check_count (length bytes / 8) ceiling)
  lift (unpack_entries bytes (length bytes / 8) 0)

unfoldable pub cached_entries : Option (List NameIdEntry) → Action (List NameIdEntry)
unfolding stream entries_in keep_entries
cached_entries (some found) = pure found
cached_entries none = do bytes ← stream 3; found ← entries_in bytes; keep_entries found

unfoldable pub entries : Action (List NameIdEntry)
unfolding cached_entries
entries m = cached_entries m.entries m

-- The name at `offset` of the string stream: its length, even and inside the stream, then its bytes.
unfoldable pub name_bytes : Bytes → ℕ → Result Bytes
name_bytes bytes offset =
    let size = u32 bytes offset in
    if leb (offset + 4) (length bytes)
    then (if size % 2 == 1
        then err format
        else if ltb (length bytes) (offset + 4 + size)
        then err format
        else ok (slice bytes (offset + 4) size))
    else err format

unfoldable pub string_bytes : ℕ → Action Bytes
unfolding stream name_bytes
string_bytes offset = do bytes ← stream 4; lift (name_bytes bytes offset)

-- The value of PidTagNameidBucketCount, within the ids that are left for buckets. A value of
-- another kind cannot come of its type: the assertion in the source would fail.
unfoldable pub bounded_count : PropValue → Result ℕ
bounded_count (PropValue.one (Scalar.int (pos v))) = if leb v 0xEFFF then ok v else err format
bounded_count (PropValue.one (Scalar.int (negsuc v))) = err format
bounded_count v = err escaped

-- A map with entries has buckets.
unfoldable pub check_some_bucket : ℕ → Action (Unit {0})
unfolding entries
check_some_bucket zero = do es ← entries; lift (require (length es == 0) format)
check_some_bucket (suc n) = pure tt

-- No bucket lies past the count.
unfoldable pub check_highest : ℕ → Option ℕ → Result (Unit {0})
check_highest n none = ok tt
check_highest n (some i) = require (ltb (i - 0x1000) n) format

unfoldable pub count_of : Option PropertyRecord → Action ℕ
unfolding bounded_count check_some_bucket check_highest highest
count_of none = lift (err format)
count_of (some r) = do
  lift (require (is_long r.prop_type) format)
  v ← in_context (λ c. PropContext.read c r)
  n ← lift (bounded_count v)
  check_some_bucket n
  records ← in_context all_records
  lift (check_highest n (highest records none))
  pure n

unfoldable pub bucket_count : Action ℕ
unfolding count_of
bucket_count = do records ← in_context all_records; count_of (find_record 1 records)
