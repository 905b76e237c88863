-- ===== src/Sla/Calendar/Due.antt =====
-- apps/api/src/modules/task/sla/business-calendar.util.ts: the day on which the loop over the days
-- ends, and that it ends.
use etik_bildirim_platformu.Prelude.{
  ℕ, suc, zero, ◌+◌, ◌-◌, ◌*◌, ◌/◌, ◌%◌, ◌≤◌, ◌<◌, ◌≡◌, refl, ap, ◌∙◌, inl, inr, true, none, some,
  arith, ltb, leb, leb_iff, if◌then◌else◌, Bool-cases, some-injective, ◌⊎◌, nat_beq,
}
use etik_bildirim_platformu.Sla.Calendar.{
  BusinessCalendarLookup, resolve_business_day_weight, last_day, add_business_days,
  build_due_at_from_date_key, to_istanbul_date_key, resolve_effective_day_type,
  get_default_day_type, get_istanbul_weekday_index, half_days,
}

due-same_day :
    (time : ℕ) → build_due_at_from_date_key (to_istanbul_date_key time) time ≡ time / 1000 * 1000
unfolding build_due_at_from_date_key to_istanbul_date_key
due-same_day time = omega arith

module _ (lookup : BusinessCalendarLookup) where
  abbrev pub weight_of : ℕ → ℕ
  weight_of date_key = resolve_business_day_weight date_key (lookup date_key)

  -- The half days of business in `count` days from a day on.
  abbrev pub total_weight : ℕ → ℕ → ℕ
  total_weight zero date_key = 0
  total_weight (suc count) date_key = weight_of date_key + total_weight count (date_key + 1)

  -- The loop ends on the first day with which the days from the start on, that day included, have
  -- the half days that remained.
  pub last_day-total_weight :
      (fuel remaining date_key day : ℕ)
      → 0 < remaining
      → last_day lookup fuel remaining date_key ≡ some day
      → (count : ℕ) × (day ≡ date_key + count)
        × (total_weight count date_key < remaining)
        × (remaining ≤ total_weight (suc count) date_key)
  unfolding last_day
  last_day-total_weight zero remaining date_key day more h = cc
  last_day-total_weight (suc fuel) remaining date_key day more h =
      elim (Bool-cases (ltb 0 (weight_of date_key))) [
        | inl counts ↦ elim (Bool-cases (leb remaining (weight_of date_key))) [
          | inl last ↦
              let here : some date_key ≡ some day = rw (counts, last, last_day) at h in
              let same : date_key ≡ day = some-injective here in
              (0, omega arith, more, ground (arith, last))
          | inr further ↦
              let past : weight_of date_key < remaining = ground (arith, further) in
              let later : last_day lookup fuel (remaining - weight_of date_key) (date_key + 1)
                  ≡ some day =
                rw (counts, further, last_day) at h in
              let (count, at_day, below, enough) =
                last_day-total_weight fuel (remaining - weight_of date_key) (date_key + 1) day
                  (omega arith) later in
              (suc count, omega arith, omega arith, omega arith)
        ]
        | inr skipped ↦
            let later : last_day lookup fuel (remaining - weight_of date_key) (date_key + 1)
                ≡ some day =
              rw (skipped, last_day) at h in
            let nothing : weight_of date_key ≡ 0 = ground (arith, skipped) in
            let (count, at_day, below, enough) =
              last_day-total_weight fuel (remaining - weight_of date_key) (date_key + 1) day
                (omega arith) later in
            (suc count, omega arith, omega arith, omega arith)
      ]

  -- The days up to the next one that is no weekend.
  abbrev days_off : ℕ → ℕ
  days_off date_key =
      if nat_beq ((date_key + 4) % 7) 6
      then 2
      else (if nat_beq ((date_key + 4) % 7) 0 then 1 else 0)

  weight-default :
      (date_key : ℕ)
      → lookup date_key ≡ none
      → ((weight_of date_key ≡ 2) × (days_off date_key ≡ 0))
        ⊎ ((weight_of date_key ≡ 0) × (days_off date_key ≡ days_off (date_key + 1) + 1))
  unfolding resolve_business_day_weight resolve_effective_day_type get_default_day_type
      get_istanbul_weekday_index half_days
  weight-default date_key h = rw h (ground arith)

  days_off-le : (date_key : ℕ) → days_off date_key ≤ 2
  days_off-le date_key = ground arith

  -- How many days without business may come next.
  abbrev slack : ℕ → ℕ → ℕ
  slack bound date_key = if leb bound date_key then days_off date_key else 2

  slack-le : (bound date_key : ℕ) → slack bound date_key ≤ 2
  slack-le bound date_key = ground (arith, days_off-le date_key)

  next_day :
      (bound fuel remaining date_key : ℕ)
      → ((later : ℕ) → bound ≤ later → lookup later ≡ none)
      → weight_of date_key < remaining
      → (bound - date_key) + 3 * remaining + slack bound date_key ≤ suc fuel
      → (bound - (date_key + 1)) + 3 * (remaining - weight_of date_key) + slack bound (date_key + 1)
        ≤ fuel
  next_day bound fuel remaining date_key open_end more fuelled =
      elim (Bool-cases (leb bound date_key)) [
        | inr before ↦
            let early : date_key < bound = ground (arith, before) in
            let two : slack bound date_key ≡ 2 = rw before refl in
            omega (arith, slack-le bound (date_key + 1))
        | inl past ↦
            let late : bound ≤ date_key = (leb_iff bound date_key).0 past in
            let later : leb bound (date_key + 1) ≡ true =
              (leb_iff bound (date_key + 1)).1 (omega arith) in
            let off : slack bound date_key ≡ days_off date_key = rw past refl in
            let off_later : slack bound (date_key + 1) ≡ days_off (date_key + 1) = rw later refl in
            elim (weight-default date_key (open_end date_key late)) [
              | inl (full, none_off) ↦ omega (arith, days_off-le (date_key + 1))
              | inr (empty, one_less) ↦ omega arith
            ]
      ]

  last_day-fuel :
      (bound fuel remaining date_key : ℕ)
      → ((later : ℕ) → bound ≤ later → lookup later ≡ none)
      → 0 < remaining
      → (bound - date_key) + 3 * remaining + slack bound date_key ≤ fuel
      → (day : ℕ) × (last_day lookup fuel remaining date_key ≡ some day)
  unfolding last_day
  last_day-fuel bound zero remaining date_key open_end more fuelled = absurd (omega arith)
  last_day-fuel bound (suc fuel) remaining date_key open_end more fuelled =
      elim (Bool-cases (ltb 0 (weight_of date_key))) [
        | inl counts ↦ elim (Bool-cases (leb remaining (weight_of date_key))) [
          | inl last ↦ (date_key, rw (counts, last, last_day) refl)
          | inr further ↦
              let past : weight_of date_key < remaining = ground (arith, further) in
              let (day, found) =
                last_day-fuel bound fuel (remaining - weight_of date_key) (date_key + 1) open_end
                  (omega arith) (next_day bound fuel remaining date_key open_end past fuelled) in
              (day, rw (counts, further, last_day) found)
        ]
        | inr skipped ↦
            let nothing : weight_of date_key ≡ 0 = ground (arith, skipped) in
            let (day, found) =
              last_day-fuel bound fuel (remaining - weight_of date_key) (date_key + 1) open_end
                (omega arith)
                (next_day bound fuel remaining date_key open_end (omega arith) fuelled) in
            (day, rw (skipped, last_day) found)
      ]

  -- The loop ends. When the calendar has no entry from some day on, the fuel of the days up to
  -- that one, of three days for each half day that is to be counted, and of two more is enough.
  pub last_day-enough :
      (bound remaining date_key : ℕ)
      → ((later : ℕ) → bound ≤ later → lookup later ≡ none)
      → 0 < remaining
      → (day : ℕ) × (last_day lookup ((bound - date_key) + 3 * remaining + 2) remaining date_key
          ≡ some day)
  last_day-enough bound remaining date_key open_end more =
      last_day-fuel bound _ remaining date_key open_end more
        (omega (arith, slack-le bound date_key))

  -- The loop over the days ends, when the calendar has no entry from some day on, with any fuel
  -- from the days up to that one, three days for each half day to be counted and two more on. It
  -- ends on the first day with which the days from the start on, that day included, have the half
  -- days that were to be counted.
  pub last_day-ends :
      (bound fuel remaining date_key : ℕ)
      → ((later : ℕ) → bound ≤ later → lookup later ≡ none)
      → 0 < remaining
      → (bound - date_key) + 3 * remaining + 2 ≤ fuel
      → (count : ℕ) × (last_day lookup fuel remaining date_key ≡ some (date_key + count))
        × (total_weight count date_key < remaining)
        × (remaining ≤ total_weight (suc count) date_key)
  last_day-ends bound fuel remaining date_key open_end more fuelled =
      let (day, found) =
        last_day-fuel bound fuel remaining date_key open_end more
          (omega (arith, slack-le bound date_key)) in
      let (count, at_day, below, enough) =
        last_day-total_weight fuel remaining date_key day more found in
      (count, found ∙ ap some at_day, below, enough)

  -- One business day, two half days, from a time on a full workday is due on that very day, at the
  -- time of the assignment less the part of a second.
  pub add_business_days-same_day :
      (fuel assignment_time : ℕ)
      → weight_of (to_istanbul_date_key assignment_time) ≡ 2
      → add_business_days lookup (suc fuel) assignment_time 2 ≡ some (assignment_time / 1000 * 1000)
  unfolding add_business_days last_day build_due_at_from_date_key to_istanbul_date_key
  add_business_days-same_day fuel assignment_time full =
      rw full (ap some (due-same_day assignment_time))
