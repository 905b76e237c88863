-- ===== src/Sla/Window.antt =====
-- packages/shared/src/sla/sla-window.util.ts. A date is its time in milliseconds, or none if it is
-- invalid. The ratio 0.2 is compared without rounding, as five times the remaining time.
use etik_bildirim_platformu.Prelude.{
  ℕ, ◌-◌, ◌*◌, ◌≤◌, ◌<◌, ◌≡◌, ◌↔◌, Option, none, some, ltb, leb, if◌then◌else◌, arith,
}

pub data SlaWindowPhase : Type 0 where
  on_track warning overdue : SlaWindowPhase

-- A window of no length, `dueAt <= createdAt`, is on track until it is overdue.
unfoldable pub resolve_sla_window_phase : Option ℕ → Option ℕ → ℕ → SlaWindowPhase
resolve_sla_window_phase none created now = on_track
resolve_sla_window_phase (some due) none now = on_track
resolve_sla_window_phase (some due) (some created) now =
    if ltb due now
    then overdue
    else (if leb due created
        then on_track
        else (if leb (5 * (due - now)) (due - created) then warning else on_track))

abbrev pub urgency : SlaWindowPhase → ℕ
urgency on_track = 0
urgency warning = 1
urgency overdue = 2

-- A deadline never becomes less urgent as time goes on.
pub resolve_sla_window_phase_mono :
    (due created : Option ℕ) (now later : ℕ)
    → now ≤ later
    → urgency (resolve_sla_window_phase due created now)
      ≤ urgency (resolve_sla_window_phase due created later)
unfolding resolve_sla_window_phase
resolve_sla_window_phase_mono due created now later h = ground arith

-- A window of positive length warns exactly in its last fifth, its end included.
pub warning_iff :
    (due created now : ℕ)
    → created < due
    → (resolve_sla_window_phase (some due) (some created) now ≡ warning)
      ↔ ((now ≤ due) × (5 * (due - now) ≤ due - created))
unfolding resolve_sla_window_phase
warning_iff due created now h = ground arith
