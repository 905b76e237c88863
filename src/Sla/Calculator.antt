-- ===== src/Sla/Calculator.antt =====
-- apps/api/src/modules/task/sla/sla-calculator.service.ts and business-calendar.service.ts: the
-- deadline of a task. The rows of the two configuration tables are given as lists.
pub mod Total
use etik_bildirim_platformu.Prelude.{
  ℕ, ◌+◌, ◌*◌, String, Bool, ◌&&◌, Option, none, some, List, [], ◌∷◌, ◌===◌, string_eq, leb,
  nat_beq, find, filter, if◌then◌else◌, Outcome, ok, throw, ◌>>=◌,
}
use etik_bildirim_platformu.Shared.Enums.{TaskType, TaskType-discrete, task_type_eq}
use etik_bildirim_platformu.Shared.Errors.{ErrorCode, sla_policy_not_found, internal_error}
use etik_bildirim_platformu.Sla.Calendar.{
  BusinessCalendarDayType, BusinessCalendarLookup, day_ms, to_istanbul_date_key, add_business_days,
}

pub data SlaUnit : Type 0 where
  calendar_hours business_days : SlaUnit

-- The member of the enumeration that a column's text is, where it is one: the source's cast, with
-- its test `SLA_UNIT_VALUES.includes(slaUnit)`.
unfoldable pub sla_unit_of : String → Option SlaUnit
sla_unit_of code =
    if code === "calendar_hours"
    then some calendar_hours
    else (if code === "business_days" then some business_days else none)

-- `SlaPolicyConfig`, as far as it is read here. The unit is any text.
pub record SlaPolicyRow : Type 0 where
  pub id : String
  pub task_type : TaskType
  pub sla_duration : ℕ
  pub sla_unit : String
  pub is_active : Bool

-- `BusinessCalendarEntry`
pub record CalendarEntryRow : Type 0 where
  pub date : ℕ
  pub day_type : BusinessCalendarDayType
  pub is_active : Bool

-- `SlaDueCalculation`
pub record SlaDueCalculation : Type 0 where
  pub due_at : ℕ
  pub sla_policy_id : String

-- `lookup.set` for each entry: the last one of a day counts.
unfoldable pub lookup_of : List CalendarEntryRow → BusinessCalendarLookup
lookup_of [] date_key = none
lookup_of (entry ∷ entries) date_key = elim (lookup_of entries date_key) [
  | some later ↦ some later
  | none ↦ if nat_beq (to_istanbul_date_key entry.date) date_key then some entry.day_type else none
]

unfoldable pub load_active_entries_for_range :
    List CalendarEntryRow → ℕ → ℕ → BusinessCalendarLookup
unfolding lookup_of
load_active_entries_for_range entries start_date end_date = lookup_of (
    filter (λ entry. (entry.is_active && leb start_date entry.date) && leb entry.date end_date)
      entries)

abbrev pub calendar_span : ℕ → ℕ
calendar_span days = if leb (days * 2 + 14) 30 then 30 else days * 2 + 14

unfoldable pub build_lookup_for_business_day_span :
    List CalendarEntryRow → ℕ → ℕ → BusinessCalendarLookup
unfolding load_active_entries_for_range
build_lookup_for_business_day_span entries assignment_time days =
    load_active_entries_for_range entries assignment_time
      (assignment_time + calendar_span days * day_ms)

unfoldable pub find_active_policy : List SlaPolicyRow → TaskType → Outcome ErrorCode SlaPolicyRow
unfolding TaskType-discrete
find_active_policy policies task_type =
    elim (find (λ policy. policy.task_type === task_type && policy.is_active) policies) [
      | none ↦ throw sla_policy_not_found
      | some policy ↦ ok policy
    ]

-- The fuel of the loop over the days: the span of the calendar that is read, and three days for
-- each half day to be counted.
abbrev pub days_of_fuel : ℕ → ℕ
days_of_fuel days = calendar_span days + 6 * days + 3

abbrev pub or_internal_error : Option ℕ → Outcome ErrorCode ℕ
or_internal_error none = throw internal_error
or_internal_error (some due_at) = ok due_at

unfoldable pub due_at_of : List CalendarEntryRow → SlaUnit → ℕ → ℕ → Outcome ErrorCode ℕ
unfolding build_lookup_for_business_day_span
due_at_of entries calendar_hours duration assigned_at = ok (assigned_at + duration * 3600000)
due_at_of entries business_days duration assigned_at = or_internal_error (
    add_business_days (build_lookup_for_business_day_span entries assigned_at duration)
      (days_of_fuel duration) assigned_at (2 * duration))

unfoldable pub compute_due_at : List CalendarEntryRow → String → ℕ → ℕ → Outcome ErrorCode ℕ
unfolding due_at_of sla_unit_of
compute_due_at entries sla_unit duration assigned_at = elim (sla_unit_of sla_unit) [
  | none ↦ throw sla_policy_not_found
  | some unit ↦ due_at_of entries unit duration assigned_at
]

unfoldable pub calculate_due_at :
    List SlaPolicyRow → List CalendarEntryRow → TaskType → ℕ → Outcome ErrorCode SlaDueCalculation
unfolding find_active_policy compute_due_at
calculate_due_at policies entries task_type assigned_at = do
  policy ← find_active_policy policies task_type
  due_at ← compute_due_at entries policy.sla_unit policy.sla_duration assigned_at
  ok (record { due_at = due_at; sla_policy_id = policy.id })
