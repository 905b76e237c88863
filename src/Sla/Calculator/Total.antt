-- ===== src/Sla/Calculator/Total.antt =====
-- apps/api/src/modules/task/sla/sla-calculator.service.ts: a task type with an active policy of
-- a valid unit always gets a deadline.
use Prim.Native.Nat.{suc, zero}
use etik_bildirim_platformu.Prelude.{
  ◌≢◌, string_eq, String, Option, ===_iff, ne_of_test, ℕ, ◌+◌, ◌*◌, ◌-◌, ◌/◌, ◌≤◌, ◌<◌, ◌≡◌, refl,
  subst, sym, inl, inr, Bool, false, ◌&&◌, none, some, List, [], ◌∷◌, ◌===◌, leb, nat_beq, find,
  filter, ok, throw, arith, Bool-cases, Option-cases, ◌⊎◌,
}
use etik_bildirim_platformu.Shared.Enums.{TaskType, TaskType-discrete, task_type_eq}
use etik_bildirim_platformu.Shared.Errors.{sla_policy_not_found}
use etik_bildirim_platformu.Sla.Calendar.{
  BusinessCalendarLookup, day_ms, offset_ms, to_istanbul_date_key, last_day, add_business_days,
  build_due_at_from_date_key,
}
use etik_bildirim_platformu.Sla.Calendar.Due.{last_day-enough}
use etik_bildirim_platformu.Sla.Calculator.{
  SlaUnit, calendar_hours, business_days, SlaPolicyRow, CalendarEntryRow, lookup_of,
  load_active_entries_for_range, calendar_span, build_lookup_for_business_day_span,
  find_active_policy, days_of_fuel, sla_unit_of, due_at_of, compute_due_at, calculate_due_at,
}

-- No entry that was loaded lies after the range.
lookup_of-after :
    (end_date date_key : ℕ) (entries : List CalendarEntryRow) (active : CalendarEntryRow → Bool)
    → to_istanbul_date_key end_date < date_key
    → lookup_of (filter (λ entry. active entry && leb entry.date end_date) entries) date_key ≡ none
unfolding lookup_of to_istanbul_date_key
lookup_of-after end_date date_key [] active h = refl
lookup_of-after end_date date_key (entry ∷ entries) active h =
    let rest = lookup_of-after end_date date_key entries active h in
    elim (Bool-cases (active entry && leb entry.date end_date)) [
      | inl e ↦
          let early : entry.date ≤ end_date = ground arith in
          let apart : nat_beq ((entry.date + offset_ms) / day_ms) date_key ≡ false = ground arith in
          rw (e, rest, apart) refl
      | inr e ↦ rw e rest
    ]

add_business_days-some :
    (lookup : BusinessCalendarLookup) (bound remaining time fuel : ℕ)
    → ((later : ℕ) → bound ≤ later → lookup later ≡ none)
    → fuel ≡ (bound - to_istanbul_date_key time) + 3 * remaining + 2
    → (due : ℕ) × (add_business_days lookup fuel time remaining ≡ some due)
unfolding add_business_days
add_business_days-some lookup bound zero time fuel open_end h = (time, refl)
add_business_days-some lookup bound (suc n) time fuel open_end h =
    let (day, e) =
      last_day-enough lookup bound (suc n) (to_istanbul_date_key time) open_end (omega arith) in
    let found : last_day lookup fuel (suc n) (to_istanbul_date_key time) ≡ some day =
      subst (λ f. last_day lookup f (suc n) (to_istanbul_date_key time) ≡ some day) (sym h) e in
    (build_due_at_from_date_key day time, rw found refl)

span_end :
    (time span : ℕ) → to_istanbul_date_key (time + span * day_ms) ≡ to_istanbul_date_key time + span
unfolding to_istanbul_date_key
span_end time span = omega arith

fuel_enough :
    (start days span : ℕ) → span + 6 * days + 3 ≡ ((start + span + 1) - start) + 3 * (2 * days) + 2
fuel_enough start days span = omega arith

due_at_of-ok :
    (entries : List CalendarEntryRow) (unit : SlaUnit) (duration assigned_at : ℕ)
    → (due : ℕ) × (due_at_of entries unit duration assigned_at ≡ ok due)
unfolding due_at_of build_lookup_for_business_day_span load_active_entries_for_range
due_at_of-ok entries calendar_hours duration assigned_at = (_, refl)
due_at_of-ok entries business_days duration assigned_at =
    let end_date = assigned_at + calendar_span duration * day_ms in
    let key = to_istanbul_date_key assigned_at in
    let (due, e) =
      add_business_days-some (build_lookup_for_business_day_span entries assigned_at duration)
        (key + calendar_span duration + 1) (2 * duration) assigned_at (days_of_fuel duration)
        (λ later past.
          lookup_of-after end_date later entries _
            (rw (span_end assigned_at (calendar_span duration)) (omega arith)))
        (fuel_enough key duration (calendar_span duration)) in
    (due, rw e refl)

-- The policy that counts: the first active one of the type of the task.
abbrev pub active_policy : List SlaPolicyRow → TaskType → Option SlaPolicyRow
active_policy policies task_type =
    find (λ policy. policy.task_type === task_type && policy.is_active) policies

sla_unit_of-cases :
    (code : String)
    → ((unit : SlaUnit) × (sla_unit_of code ≡ some unit)
        × ((code ≡ "calendar_hours") ⊎ (code ≡ "business_days")))
      ⊎ ((sla_unit_of code ≡ none) × ((code ≢ "calendar_hours") × (code ≢ "business_days")))
unfolding sla_unit_of
sla_unit_of-cases code = elim (Bool-cases (code === "calendar_hours")) [
  | inl a ↦ inl (calendar_hours, rw a refl, inl ((===_iff code "calendar_hours").0 a))
  | inr a ↦ elim (Bool-cases (code === "business_days")) [
    | inl b ↦ inl (business_days, rw (a, b) refl, inr ((===_iff code "business_days").0 b))
    | inr b ↦
        inr
          (rw (a, b) refl, (ne_of_test code "calendar_hours" a, ne_of_test code "business_days" b))
  ]
]

-- The calculator returns a deadline, of the active policy that counts for the type of the task,
-- exactly when there is one and its unit is one of the two; otherwise it fails with
-- SLA_POLICY_NOT_FOUND. The loop over the days always ends.
pub calculate_due_at-find :
    (policies : List SlaPolicyRow) (entries : List CalendarEntryRow) (task_type : TaskType)
    (assigned_at : ℕ)
    → ((policy : SlaPolicyRow) × (due : ℕ) × (active_policy policies task_type ≡ some policy)
        × ((policy.sla_unit ≡ "calendar_hours") ⊎ (policy.sla_unit ≡ "business_days"))
        × (calculate_due_at policies entries task_type assigned_at
            ≡ ok (record { due_at = due; sla_policy_id = policy.id })))
      ⊎ (((active_policy policies task_type ≡ none)
            ⊎ ((policy : SlaPolicyRow) × (active_policy policies task_type ≡ some policy)
                × (policy.sla_unit ≢ "calendar_hours")
                × (policy.sla_unit ≢ "business_days")))
          × (calculate_due_at policies entries task_type assigned_at ≡ throw sla_policy_not_found))
unfolding calculate_due_at find_active_policy compute_due_at TaskType-discrete
calculate_due_at-find policies entries task_type assigned_at =
    elim (Option-cases (active_policy policies task_type)) [
      | inl e ↦ inr (inl e, rw (calculate_due_at, find_active_policy, e) refl)
      | inr (policy, e) ↦ elim (sla_unit_of-cases policy.sla_unit) [
        | inl (unit, u, named) ↦
            let (due, d) = due_at_of-ok entries unit policy.sla_duration assigned_at in
            inl (
              policy,
              due,
              e,
              named,
              rw (calculate_due_at, find_active_policy, e, compute_due_at, u, d) refl,
            )
        | inr (u, (no_hours, no_days)) ↦ inr (
          inr (policy, e, no_hours, no_days),
          rw (calculate_due_at, find_active_policy, e, compute_due_at, u) refl,
        )
      ]
    ]
