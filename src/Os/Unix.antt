-- ===== src/Os/Unix.antt =====
-- src/os/unix.rs: starting a process group, killing and probing it, and waiting for its root. libc, the clock and
-- `Child` are parameters over an unknown state `W`; the model adds the list of signals sent, newest
-- first. Times are in nanoseconds. A `Child` is its process id; its pipes are in Os/Drain.antt.
pub mod Effect
pub mod Escalation
pub mod Keeps
pub mod Process
pub mod Signals
mod Examples
use aer_core.Base.{
  ℕ, zero, suc, ◌+◌, ◌-◌, ◌*◌, ◌/◌, ◌^◌, ◌≤◌, min, ℤ, negsuc, String, Bool, true, false, ◌≡◌,
  Option, none, some, List, ◌∷◌, Result, ok, err, leb, if◌then◌else◌,
}
use aer_core.Error.{AerError, spawn_failed, kill_failed, wait_failed}
use aer_core.Os.{OsHandle, SpawnOptions}
use aer_core.Os.Command.{CommandCall, command_calls}

-- `probe` is signal 0.
pub data Signal : Type 0 where
  probe sigterm sigkill : Signal

-- `raw_os_error` of the error that a failed call leaves: `ESRCH`, or another number.
pub data Errno : Type 0 where
  esrch : Errno
  errno : ℕ → Errno

-- To a process group by `killpg`, or to one process by `kill`.
pub data Sent : Type 0 where
  group process : Signal → ℕ → Sent

-- libc's `killpg`, `kill` and `setsid`, which answer `none` for success, and `waitpid`; and std's
-- `Instant::now`, `thread::sleep`, `Command::spawn`, which is given the closure of `pre_exec`, and
-- `Child::wait`. An exit status has a code unless a signal ended the process.
pub record System (W : Type 0) : Type 0 where
  pub killpg : ℕ → Signal → W → Option Errno × W
  pub kill : ℕ → Signal → W → Option Errno × W
  pub now : W → ℕ × W
  pub sleep : ℕ → W → W
  pub setsid : W → Option Errno × W
  pub waitpid : ℕ → W → W
  pub spawn_child : List CommandCall → (W → Result (Unit {0}) Errno × W) → W → Result ℕ Errno × W
  pub child_wait : (child : ℕ) → W → Result (Option ℤ) Errno × W

-- The state, and the signals sent so far.
pub record World (W : Type 0) : Type 0 where
  pub state : W
  pub sent : List Sent

-- How the polling loop of `kill_escalating` ends.
pub data Poll (W : Type 0) : Type 0 where
  dead expired : World W → Poll W
  out_of_fuel : Poll W

-- What a call returns, beside the world that it leaves.
abbrev pub Reply : (W A : Type 0) → Type 0
Reply W A = Result A (AerError Errno) × World W

-- 25 milliseconds
abbrev pub poll_interval : ℕ
poll_interval = 25 * 10 ^ 6

module _ {W : Type 0} (os : System W) (pgid : ℕ) where
  unfoldable pub send_group : Signal → World W → Option Errno × World W
  send_group sig w =
      let (r, state) = os.killpg pgid sig w.state in
      (r, record { state = state; sent = Sent.group sig pgid ∷ w.sent })

  unfoldable pub send_process : Signal → World W → Option Errno × World W
  send_process sig w =
      let (r, state) = os.kill pgid sig w.state in
      (r, record { state = state; sent = Sent.process sig pgid ∷ w.sent })

  -- whether the answer to a probe means that something is alive
  abbrev pub is_alive : Option Errno → Bool
  is_alive none = true
  is_alive (some esrch) = false
  is_alive (some (errno n)) = true

  -- the second half of `tree_alive`: on ESRCH, probe the process itself
  probe_process : Option Errno × World W → Bool × World W
  unfolding send_process
  probe_process (some esrch, w) = let (r, w') = send_process probe w in (is_alive r, w')
  probe_process (some (errno n), w) = (true, w)
  probe_process (none, w) = (true, w)

  -- `tree_alive`
  unfoldable pub tree_alive : World W → Bool × World W
  unfolding send_group probe_process
  tree_alive w = probe_process (send_group probe w)

  -- A signal to the group, and to the process if the group is not there; another error ends the call.
  deliver_on : Signal → Option Errno × World W → Reply W (Unit {0})
  unfolding send_process
  deliver_on sig (none, w) = (ok tt, w)
  deliver_on sig (some esrch, w) = (ok tt, (send_process sig w).1)
  deliver_on sig (some (errno n), w) = (err (kill_failed (errno n)), w)

  unfoldable pub deliver : Signal → World W → Reply W (Unit {0})
  unfolding send_group deliver_on
  deliver sig w = deliver_on sig (send_group sig w)

  -- The polling loop. The source's has no limit of rounds; the fuel stands for one that is high
  -- enough when the clock moves on (Unix/Signals.antt). `Instant::now() + grace` panics when it
  -- overflows, which natural numbers do not.
  unfoldable pub poll : ℕ → (deadline : ℕ) → World W → Poll W
  unfolding tree_alive
  poll zero deadline w = out_of_fuel
  poll (suc fuel) deadline w =
      let (alive, w') = tree_alive w in
      let (now, state) = os.now w'.state in
      let rest =
        poll fuel deadline
          (record w' { state = os.sleep (min poll_interval (deadline - now)) state }) in
      if alive
      then (if leb deadline now then expired (record w' { state = state }) else rest)
      else dead w'

  after_poll : Poll W → Option (Reply W (Unit {0}))
  unfolding deliver
  after_poll (dead w) = some (ok tt, w)
  after_poll (expired w) = some (deliver sigkill w)
  after_poll out_of_fuel = none

  after_sigterm : (grace : ℕ) → Reply W (Unit {0}) → Option (Reply W (Unit {0}))
  unfolding poll after_poll
  after_sigterm grace (err e, w) = some (err e, w)
  after_sigterm grace (ok u, w) =
      let (now, state) = os.now w.state in
      after_poll (poll (grace / poll_interval + 2) (now + grace) (record w { state = state }))

  -- `kill_escalating`; `none` means that the fuel of the loop ran out
  unfoldable pub kill_escalating : (grace : ℕ) → World W → Option (Reply W (Unit {0}))
  unfolding deliver after_sigterm
  kill_escalating grace w = after_sigterm grace (deliver sigterm w)

  -- the result that `wait` makes of `child.wait()`
  unfoldable pub exit_result : Result (Option ℤ) Errno → Result ℤ (AerError Errno)
  exit_result (ok (some code)) = ok code
  exit_result (ok none) = ok (negsuc 0)
  exit_result (err e) = err (wait_failed e)

  -- `wait`, less its drain threads: the group is killed whatever `child.wait()` answered
  unfoldable pub wait : (child : ℕ) → World W → Reply W ℤ
  unfolding send_group exit_result
  wait child w =
      let (res, state) = os.child_wait child w.state in
      (exit_result res, (send_group sigkill (record w { state = state })).1)

  -- `reap_abandoned`
  unfoldable pub reap_abandoned : World W → World W
  reap_abandoned w = record w { state = os.waitpid pgid w.state }

module _ {W : Type 0} (os : System W) where
  -- the closure of `pre_exec`, which the child runs between fork and exec
  pre_exec : W → Result (Unit {0}) Errno × W
  pre_exec w = let (r, w') = os.setsid w in (elim r [ none ↦ ok tt | some e ↦ err e ], w')

  -- `child.id()` and the rest of `spawn`
  spawn_result : Result ℕ Errno → Result (OsHandle ℕ × ℕ) (AerError Errno)
  spawn_result (ok child) = ok (record { pid = child; kill = child }, child)
  spawn_result (err e) = err (spawn_failed e)

  -- `spawn`; the child stands beside its handle
  unfoldable pub spawn : String → List String → SpawnOptions → World W → Reply W (OsHandle ℕ × ℕ)
  unfolding pre_exec spawn_result
  spawn program args options w =
      let (r, state) = os.spawn_child (command_calls program args options) pre_exec w.state in
      (spawn_result r, record w { state = state })
