-- ===== src/Monitor.antt =====
-- components/monitor: the escalation that watches the control path.
pub mod Policy
pub mod Rollback
use esp32_remot_control.Prelude.{ℕ, Bool, true, false, if◌then◌else◌}

-- The latch and the streak of components/monitor/monitor.c, and whether a callback is registered.
pub record Monitor : Type 0 where
  pub done : Bool
  pub fail_streak : ℕ
  pub has_timeout_cb : Bool

unfoldable pub monitor_set_timeout_cb : Bool → Monitor → Monitor
monitor_set_timeout_cb cb m = record m { has_timeout_cb = cb }

unfoldable pub health_monitor_start : Monitor → Monitor
health_monitor_start m = record m { done = false; fail_streak = 0 }

unfoldable pub health_monitor_control_ok : Monitor → Monitor
health_monitor_control_ok m = if m.done then m else record m { done = true; fail_streak = 0 }
