-- ===== src/PropType/Value.antt =====
-- The values that `decode` returns.
use pypst_reader.Prelude.{ℕ, ◌-◌, ◌^◌, Bool, List, ltb, if◌then◌else◌, Option}
use pypst_reader.Bytes.{Bytes}
use pypst_reader.Ids.NodeId.{NodeId}

-- `negsuc n` is -(n + 1).
pub data ℤ : Type 0 where
  pos : ℕ → ℤ
  negsuc : ℕ → ℤ

-- A field of `bits` bits in two's complement.
unfoldable pub signed : ℕ → ℕ → ℤ
signed bits v = if ltb v (2 ^ (bits - 1)) then pos v else negsuc (2 ^ bits - 1 - v)

-- An aware datetime, as the timedelta from 1601-01-01 in UTC: Python keeps `seconds` below a day
-- and `microseconds` below a second.
pub record DateTime : Type 0 where
  pub days : ℕ
  pub seconds : ℕ
  pub microseconds : ℕ

-- uuid.UUID, by the fields that `bytes_le` names.
pub record Uuid : Type 0 where
  pub time_low : ℕ
  pub time_mid : ℕ
  pub time_hi_version : ℕ
  pub rest : Bytes

pub record ObjectRef : Type 0 where
  pub node : NodeId
  pub size : ℕ

abbrev pub Text : Type 0
Text = List ℕ

pub data Scalar : Type 0 where
  nothing : Scalar
  int : ℤ → Scalar
  float_bits : ℕ → ℕ → Scalar
  bool : Bool → Scalar
  bytes : Bytes → Scalar
  text : Text → Scalar
  time : DateTime → Scalar
  uuid : Uuid → Scalar
  object_ref : ObjectRef → Scalar

-- A multi-valued property is a tuple of scalars.
pub data PropValue : Type 0 where
  one : Scalar → PropValue
  many : List Scalar → PropValue

-- What `codecs.lookup(name)` returns: a decoder in the mode "strict".
abbrev pub Codec : Type 0
Codec = Bytes → Option Text
