-- ===== src/Sla/Calendar.antt =====
-- apps/api/src/modules/task/sla/business-calendar.util.ts. A time is its milliseconds since 1970,
-- and a date key `YYYY-MM-DD` in Istanbul, whose offset the source writes out as +03:00, is the
-- number of days since 1970-01-01 there.
pub mod Due
use etik_bildirim_platformu.Prelude.{
  ℕ, zero, suc, ◌+◌, ◌-◌, ◌*◌, ◌/◌, ◌%◌, Bool, true, false, ◌||◌, Option, none, some, ltb, leb,
  nat_beq, if◌then◌else◌,
}

pub data BusinessCalendarDayType : Type 0 where
  workday half_day weekend official_holiday company_holiday : BusinessCalendarDayType

abbrev pub day_ms : ℕ
day_ms = 86400000

abbrev pub offset_ms : ℕ
offset_ms = 10800000

unfoldable pub to_istanbul_date_key : ℕ → ℕ
to_istanbul_date_key time = (time + offset_ms) / day_ms

-- 1970-01-01 was a Thursday, which is 4.
unfoldable pub get_istanbul_weekday_index : ℕ → ℕ
get_istanbul_weekday_index date_key = (date_key + 4) % 7

unfoldable pub get_default_day_type : ℕ → BusinessCalendarDayType
get_default_day_type date_key =
    let weekday = get_istanbul_weekday_index date_key in
    if nat_beq weekday 0 || nat_beq weekday 6 then weekend else workday

unfoldable pub resolve_effective_day_type :
    ℕ → Option BusinessCalendarDayType → BusinessCalendarDayType
resolve_effective_day_type date_key none = get_default_day_type date_key
resolve_effective_day_type date_key (some entry) = entry

-- The weight in half days: 2, 1 or 0.
unfoldable pub half_days : BusinessCalendarDayType → ℕ
half_days workday = 2
half_days half_day = 1
half_days _ = 0

unfoldable pub resolve_business_day_weight : ℕ → Option BusinessCalendarDayType → ℕ
resolve_business_day_weight date_key entry = half_days (resolve_effective_day_type date_key entry)

-- The day of the key at the time of day of the assignment, to the second.
unfoldable pub build_due_at_from_date_key : ℕ → ℕ → ℕ
build_due_at_from_date_key date_key assignment_time =
    (date_key * day_ms + ((assignment_time + offset_ms) % day_ms) / 1000 * 1000) - offset_ms

abbrev pub BusinessCalendarLookup : Type 0
BusinessCalendarLookup = ℕ → Option BusinessCalendarDayType

module _ (lookup : BusinessCalendarLookup) where
  -- The loop, on fuel: the day on which no half day remains.
  unfoldable pub last_day : ℕ → ℕ → ℕ → Option ℕ
  last_day zero remaining date_key = none
  last_day (suc fuel) remaining date_key =
      let weight = resolve_business_day_weight date_key (lookup date_key) in
      let rest = last_day fuel (remaining - weight) (date_key + 1) in
      if ltb 0 weight then (if leb remaining weight then some date_key else rest) else rest

  abbrev due_at : ℕ → Option ℕ → Option ℕ
  due_at assignment_time none = none
  due_at assignment_time (some date_key) =
      some (build_due_at_from_date_key date_key assignment_time)

  -- `addBusinessDays`, with the number of business days counted in half days.
  unfoldable pub add_business_days : ℕ → ℕ → ℕ → Option ℕ
  unfolding last_day
  add_business_days fuel assignment_time zero = some assignment_time
  add_business_days fuel assignment_time (suc n) =
      due_at assignment_time (last_day fuel (suc n) (to_istanbul_date_key assignment_time))
