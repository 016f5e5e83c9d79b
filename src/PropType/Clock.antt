-- ===== src/PropType/Clock.antt =====
-- FILETIMEs and datetimes: what is lost in between, and what is not.
use mathlib.Core.Path.{subst}
use pypst_reader.Prelude.{ℕ, ◌+◌, ◌/◌, ◌%◌, ◌≤◌, ◌<◌, ◌≡◌, refl, inl, inr, arith, ltb, Bool-cases}
use pypst_reader.Error.{Result, ok, err, format, ok-injective}
use pypst_reader.PropType.Value.{ℤ, pos, negsuc, DateTime}
use pypst_reader.PropType.Filetime.{
  datetime_to_filetime, filetime_to_datetime, timedelta, filetime_max,
}

-- A datetime from 1601 to 9999, as Python normalises it.
pub record IsDateTime (d : DateTime) : Type 0 where
  pub days_le : d.days ≤ 3067670
  pub seconds_lt : d.seconds < 86400
  pub microseconds_lt : d.microseconds < 1000000

ticks_back : (d : DateTime) → IsDateTime d → datetime_to_filetime d ≤ filetime_max
unfolding datetime_to_filetime
ticks_back d v = omega (arith, v.days_le, v.seconds_lt, v.microseconds_lt)

timedelta_back : (d : DateTime) → IsDateTime d → timedelta (datetime_to_filetime d / 10) ≡ d
unfolding datetime_to_filetime timedelta
timedelta_back d v = ground (arith, v.days_le, v.seconds_lt, v.microseconds_lt)

-- Every datetime from 1601 to 9999 comes back from its FILETIME, to the microsecond.
pub filetime_round_trip :
    (d : DateTime) → IsDateTime d → filetime_to_datetime (pos (datetime_to_filetime d)) ≡ ok d
unfolding filetime_to_datetime
filetime_round_trip d v = ground (arith, ticks_back d v, timedelta_back d v)

timedelta_lem :
    (ft : ℕ)
    → ft ≤ filetime_max
    → IsDateTime (timedelta (ft / 10)) × (datetime_to_filetime (timedelta (ft / 10)) + ft % 10 ≡ ft)
unfolding timedelta datetime_to_filetime
timedelta_lem ft h = (
  record { days_le = omega arith; seconds_lt = omega arith; microseconds_lt = omega arith },
  omega arith,
)

-- A signed FILETIME that is accepted is not negative, and is that of a datetime from 1601 to 9999,
-- but for its last digit.
pub filetime_to_datetime_exact :
    (ft : ℤ) (d : DateTime)
    → filetime_to_datetime ft ≡ ok d
    → IsDateTime d × (n : ℕ) × (ft ≡ pos n) × (datetime_to_filetime d + n % 10 ≡ n)
unfolding filetime_to_datetime
filetime_to_datetime_exact (negsuc n) d h = absurd (never h)
  where
    never : ◌≡◌ {A = Result DateTime} (err format) (ok d) → ⊥
    never e = cc
filetime_to_datetime_exact (pos ft) d h = elim (Bool-cases (ltb filetime_max ft)) [
  | inl over ↦ absurd (never (rw over at h))
  | inr fits ↦
      let (valid, ticks) =
        subst (λ (t : DateTime). IsDateTime t × (datetime_to_filetime t + ft % 10 ≡ ft))
          (ok-injective (rw fits at h)) (timedelta_lem ft (ground arith)) in
      (valid, ft, refl, ticks)
]
  where
    never : ◌≡◌ {A = Result DateTime} (err format) (ok d) → ⊥
    never e = cc
