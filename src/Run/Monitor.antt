-- ===== src/Run/Monitor.antt =====
-- The timeout monitor thread that `run_impl` of src/task.rs spawns.
use aer_core.Base.{true, ◌∷◌, if◌then◌else◌}
use aer_core.Task.{kill_grace}
use aer_core.Run.System.{MonitorPc, Caller, Call, System, Answer}

module _ {K E : Type 0} (a : Answer K E) where
  unfoldable pub watch_from : MonitorPc K → System K E → System K E
  watch_from MonitorPc.unborn s = s
  -- `recv_timeout` ends by a message or a dropped sender, else by the deadline.
  watch_from (MonitorPc.sleeping k) s = record s {
    monitor = if s.stopped then MonitorPc.over else MonitorPc.expired k;
  }
  watch_from (MonitorPc.expired k) s = record s {
    monitor = if a.alive then MonitorPc.marking k else MonitorPc.over;
    calls = Call.tree_alive Caller.monitor k a.alive ∷ s.calls;
  }
  watch_from (MonitorPc.marking k) s = record s { timed_out = true; monitor = MonitorPc.killing k }
  watch_from (MonitorPc.killing k) s = record s {
    monitor = MonitorPc.over;
    calls = Call.kill_escalating Caller.monitor k kill_grace ∷ s.calls;
  }
  watch_from MonitorPc.over s = s

  unfoldable pub monitor_step : System K E → System K E
  unfolding watch_from
  monitor_step s = watch_from s.monitor s
