-- ===== src/PropType/Filetime.antt =====
-- FILETIME, counts of 100 ns since 1601, in src/pypstreader/ltp/prop_type.py.
use pypst_reader.Prelude.{ℕ, ◌+◌, ◌-◌, ◌*◌, ◌/◌, ◌%◌, ltb, if◌then◌else◌}
use pypst_reader.Error.{Result, ok, err, format}
use pypst_reader.PropType.Value.{ℤ, pos, negsuc, DateTime}

abbrev pub ticks_per_second : ℕ
ticks_per_second = 10000000

abbrev pub ticks_per_day : ℕ
ticks_per_day = 86400 * ticks_per_second

-- A naive datetime and one before 1601 are the caller's errors and have no counterpart here.
unfoldable pub datetime_to_filetime : DateTime → ℕ
datetime_to_filetime d = d.days * ticks_per_day + d.seconds * ticks_per_second + d.microseconds * 10

-- datetime.max in UTC: 9999-12-31, a microsecond before midnight.
abbrev pub datetime_max : DateTime
datetime_max = record { days = 3067670; seconds = 86399; microseconds = 999999 }

-- The ticks up to the last one that truncates onto `datetime.max`.
abbrev pub filetime_max : ℕ
filetime_max = 3067670 * ticks_per_day + 86399 * ticks_per_second + 999999 * 10 + 10 - 1

-- timedelta(microseconds=n)
unfoldable pub timedelta : ℕ → DateTime
timedelta n = record {
  days = n / 86400000000;
  seconds = n % 86400000000 / 1000000;
  microseconds = n % 1000000;
}

unfoldable pub filetime_to_datetime : ℤ → Result DateTime
unfolding timedelta
filetime_to_datetime (negsuc n) = err format
filetime_to_datetime (pos ft) = if ltb filetime_max ft then err format else ok (timedelta (ft / 10))
