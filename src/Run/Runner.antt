-- ===== src/Run/Runner.antt =====
-- `run_impl` of src/task.rs, one shared access, callback or platform call at a time. Both platforms
-- wrap a failed spawn in `SpawnFailed` and a failed wait in `WaitFailed`, so the environment
-- answers with the `io::Error` alone. `other` is `io::Error::other`.
use aer_core.Base.{
  ℤ, negsuc, String, Bool, true, false, ◌&&◌, ◌||◌, Option, none, some, ◌∷◌, Result, ok, err,
  if◌then◌else◌,
}
use aer_core.State.{State}
use aer_core.Machine.{transition}
use aer_core.Error.{AerError, wait_failed, spawn_failed}
use mathlib.Core.Option
use aer_core.Event.{Event, ExitReason, started, exited, stdout_chunk, stderr_chunk}
use aer_core.Os.{ChunkMsg, OutputSinks}
use aer_core.Task.{Task, kill_grace}
use aer_core.Run.System.{
  Outcome, returned, panicked, Pc, MonitorPc, Caller, Call, KillOnDropGuard, new_guard, disarm,
  System, Answer,
}

-- the two arms of the `match` in the capture loop
unfoldable pub chunk_event : ChunkMsg → Event
chunk_event (ChunkMsg.stdout seq bytes) = stdout_chunk seq bytes
chunk_event (ChunkMsg.stderr seq bytes) = stderr_chunk seq bytes

-- the `reason` of `Exited`
unfoldable pub exit_reason : (was_timed_out was_cancelled : Bool) → ExitReason
exit_reason was_timed_out was_cancelled =
    if was_timed_out
    then ExitReason.timed_out
    else if was_cancelled
    then ExitReason.cancel_requested
    else ExitReason.natural_exit

-- the `code` of `Exited`; `negsuc 0` is -1
unfoldable pub exit_code : (was_timed_out was_cancelled : Bool) → ℤ → ℤ
exit_code was_timed_out was_cancelled os_code =
    if was_timed_out || was_cancelled then negsuc 0 else os_code

-- the three returns at the end
unfoldable pub run_result {ℓ} :
    {E : Type ℓ} → (was_timed_out was_cancelled : Bool) → Result (Unit {0}) (AerError E)
run_result was_timed_out was_cancelled =
    if was_timed_out
    then err AerError.timed_out
    else if was_cancelled
    then err AerError.cancelled
    else ok tt

-- the sinks that `run_impl` gives to `wait`; `tx` is the channel's sender
unfoldable pub sinks : {S : Type 0} → S → (capture_output : Bool) → OutputSinks S
sinks tx capture_output =
    if capture_output
    then record { stdout = some tx; stderr = some tx }
    else record { stdout = none; stderr = none }

module _ {K E : Type 0} where
  abbrev pub goto : System K E → Pc K E → System K E
  goto s pc = record s { runner = pc }

  abbrev pub log : System K E → Call K → System K E
  log s c = record s { calls = c ∷ s.calls }

  -- the exit that `Drop for KillOnDropGuard` takes
  abbrev pub drop_guard : Option (KillOnDropGuard K) → Outcome E → Pc K E
  drop_guard none r = Pc.ended r
  drop_guard (some g) r = if g.armed then Pc.dropping g.kill r else Pc.ended r

  -- Leave `run_impl`: the sender of the monitor's channel is dropped, then the guard.
  unfoldable pub leave : System K E → Outcome E → System K E
  leave s r = record s { stopped = true; runner = drop_guard s.guard r }

  -- `on_event(e)`, and the next place if the callback returns
  unfoldable pub deliver : Answer K E → System K E → Event → Pc K E → System K E
  unfolding leave
  deliver a s e next =
      let s' = record s { events = e ∷ s.events } in
      if a.panics then leave s' panicked else goto s' next

  -- `machine.transition(next)?`
  unfoldable pub advance : System K E → State → Pc K E → System K E
  unfolding leave transition
  advance s state next =
      let (machine, result) = transition {E = E} s.machine state in
      let s' = record s { machine = machine } in
      elim result [ ok _ ↦ goto s' next | err e ↦ leave s' (returned (err e)) ]

  -- `*ch.kill.lock() = kill`, which waits for the holder and recovers from poisoning
  unfoldable pub write_kill : Bool → System K E → Option K → Pc K E → System K E
  write_kill false s kill next = goto s next
  write_kill true s kill next = elim s.owner [
    | none ↦ goto (record s { cancel = record (s.cancel) { kill = kill } }) next
    | some _ ↦ s
  ]

  -- the `?` on the result of `wait`
  unfoldable pub take_code : System K E → K → Result ℤ E → (ℤ → Pc K E) → System K E
  unfolding leave
  take_code s k (ok code) next = goto (log s (Call.waited k code)) (next code)
  take_code s k (err e) next = leave s (returned (err (wait_failed e)))

  -- `mpsc::channel`, of which the sinks get two clones of the sender
  unfoldable pub open_channel : System K E → System K E
  open_channel s = record s { chunk_tx = true }

  -- `drop(chunk_tx)`
  unfoldable pub drop_chunk_tx : System K E → System K E
  drop_chunk_tx s = record s { chunk_tx = false }

  -- `chunk_rx.recv()` when the drain threads have dropped their senders: it fails if no other sender
  -- is left, and blocks for ever otherwise.
  unfoldable pub closed : System K E → Pc K E → System K E
  closed s next = if s.chunk_tx then s else goto s next

  module _ (other : String → E) (t : Task) (with_cancel : Bool) (a : Answer K E) where
    unfoldable pub run_from : Pc K E → System K E → System K E
    unfolding leave deliver advance write_kill take_code open_channel drop_chunk_tx closed new_guard
        disarm chunk_event exit_reason exit_code run_result
    run_from Pc.spawning s = elim a.spawn [
      | err e ↦ goto s (Pc.ended (returned (err (spawn_failed e))))
      | ok h ↦
          goto (log (record s { guard = some (new_guard h.kill) }) (Call.spawned h.kill))
            (Pc.entering h)
    ]
    run_from (Pc.entering h) s = advance s State.running (Pc.announcing h)
    run_from (Pc.announcing h) s = deliver a s (started h.pid) (Pc.wiring h)
    run_from (Pc.wiring h) s =
        write_kill with_cancel s (some h.kill)
          (if with_cancel then Pc.checking_cancelled h else Pc.watching h)
    run_from (Pc.checking_cancelled h) s =
        goto s (if s.cancel.cancelled then Pc.checking_fired h else Pc.watching h)
    run_from (Pc.checking_fired h) s =
        goto s (if s.cancel.kill_fired then Pc.watching h else Pc.probing h)
    run_from (Pc.probing h) s =
        goto (log s (Call.tree_alive Caller.runner h.kill a.alive))
          (if a.alive then Pc.marking h else Pc.watching h)
    run_from (Pc.marking h) s =
        goto (record s { cancel = record (s.cancel) { kill_fired = true } }) (Pc.killing h)
    run_from (Pc.killing h) s =
        goto (log s (Call.kill_escalating Caller.runner h.kill kill_grace)) (Pc.watching h)
    run_from (Pc.watching h) s = elim t.timeout [
      | none ↦ goto s (Pc.choosing h)
      | some _ ↦
          if a.panics
          then leave s panicked
          else goto (record s { monitor = MonitorPc.sleeping h.kill }) (Pc.choosing h)
    ]
    run_from (Pc.choosing h) s =
        if t.capture_output
        then (let s' = drop_chunk_tx (open_channel s) in
            if a.panics then leave s' panicked else goto s' (Pc.pumping h))
        else goto s (Pc.waiting h)
    run_from (Pc.pumping h) s = elim a.message [
      | some msg ↦ deliver a s (chunk_event msg) (Pc.pumping h)
      | none ↦ closed s (Pc.settling h)
    ]
    run_from (Pc.settling h) s = elim a.wait [
      | none ↦
          leave s
            (returned (err (wait_failed (other "wait thread ended without sending a result"))))
      | some result ↦ take_code s h.kill result (Pc.disarming h)
    ]
    run_from (Pc.waiting h) s = elim a.wait [
      | none ↦ leave s panicked
      | some result ↦ take_code s h.kill result (Pc.disarming h)
    ]
    run_from (Pc.disarming h code) s =
        goto (record s { guard = Option.map disarm s.guard }) (Pc.clearing h code)
    run_from (Pc.clearing h code) s = write_kill with_cancel s none (Pc.stopping code)
    run_from (Pc.stopping code) s = goto (record s { stopped = true }) (Pc.reading_timed_out code)
    run_from (Pc.reading_timed_out code) s = goto s (Pc.reading_fired code s.timed_out)
    run_from (Pc.reading_fired code was_timed_out) s =
        goto s (Pc.exiting code was_timed_out (with_cancel && s.cancel.kill_fired))
    run_from (Pc.exiting code was_timed_out was_cancelled) s =
        advance s State.exited (Pc.reporting code was_timed_out was_cancelled)
    run_from (Pc.reporting code was_timed_out was_cancelled) s =
        deliver a s
          (exited (exit_code was_timed_out was_cancelled code)
            (exit_reason was_timed_out was_cancelled))
          (Pc.finishing was_timed_out was_cancelled)
    run_from (Pc.finishing was_timed_out was_cancelled) s =
        leave s (returned (run_result was_timed_out was_cancelled))
    run_from (Pc.dropping k r) s =
        goto (log s (Call.kill_escalating Caller.guard k 0)) (Pc.reaping k r)
    run_from (Pc.reaping k r) s = goto (log s (Call.reap_abandoned k)) (Pc.ended r)
    run_from (Pc.ended r) s = s

    unfoldable pub runner_step : System K E → System K E
    unfolding run_from
    runner_step s = run_from s.runner s
