-- ===== src/Lib.antt =====
-- A verification library for aer-core, a Rust library that runs one command as a child process: it
-- spawns the command, delivers events to a callback, kills the process tree on a timeout or a
-- cancel, and returns how the run ended.
--
-- The parts of the program and how they interact. `Task::run` and `Task::run_with_cancel` of
-- src/task.rs are `run_impl`, which drives the state machine of src/machine.rs, calls the platform
-- layer of src/os/ to spawn and to wait, and hands the events of src/event.rs to the callback. Beside
-- it run the timeout monitor, which is a thread that `run_impl` starts, and any number of calls of
-- `CancelHandle::cancel`, on threads of the caller. These share the cells of the cancel handle, with
-- a mutex around the kill handle, the `timed_out` flag and the monitor's channel. The errors of
-- src/lib.rs come back as values. src/ffi.rs wraps all of it for C: a task handle that is configured
-- by setters and run once.
--
-- Which file models which part.
-- - State.antt, Machine.antt: src/machine.rs. The machine is a record; `transition` returns the
--   machine beside the result, since the source changes it in place.
-- - Error.antt: src/lib.rs. Event.antt: src/event.rs.
-- - Task.antt: `Task` with its builder methods, and the contents of `CancelHandle`, of src/task.rs.
-- - Os.antt, Os/Drain.antt: src/os/mod.rs. Os/Process.antt: its trait `OsProcess` as a record of
--   operations, and what `run_impl` counts on as laws; Os/Unix/Process.antt and
--   Os/Windows/Process.antt fill both. Os/Command.antt: the command building of `spawn`, in
--   src/os/unix.rs. Os/Unix.antt: the operations there; the drain threads of `wait` are in
--   Os/Drain.antt. Os/Windows.antt: the operations of src/os/windows.rs, with the count of the
--   `Arc` around each job's handle.
-- - Run/System.antt: the state that the threads of a run share, with a program counter for each.
--   Run/Runner.antt: `run_impl` and the drop of `KillOnDropGuard`. Run/Monitor.antt: the monitor.
--   Run/Canceller.antt: `cancel`. One step is one access of a shared cell, one callback or one call
--   of the platform layer; a step reads what the environment answers from an `Answer`.
--   Run/Schedule.antt: a schedule names the thread of each step, and `Reach` holds of the states
--   that some schedule leads to. A thread that waits for the mutex makes a step that changes
--   nothing. Events and platform calls are recorded in two lists, newest first. `run_impl`
--   has a sender of the chunk channel of its own, which it drops; the messages of the drain threads,
--   and the end of their senders, are answers of the environment.
-- - Run/Direct.antt: `run_impl` over the operations of a platform, as one sequence of calls, without
--   a timeout and with a cancel handle that nobody else uses meanwhile. Run/Direct/Sweep.antt: what a
--   platform must keep for such a run to leave nothing behind.
-- - Ffi/: src/ffi.rs. Ffi/Codes.antt: error codes and the last error message. Ffi/Handles.antt: the
--   setters. Ffi/Create.antt: `aer_task_new`. Ffi/Events.antt: the `AerEvent` of each event.
--   Ffi/Run.antt: `aer_task_run` around a run that is a parameter. Ffi/Frozen.antt: sequences of
--   calls on one handle, with the making of cancel handles. Ffi/Builder.antt: the setters as builder
--   methods. Ffi/Store.antt: the handles as memory, with addresses and `Arc` counts, and the calls of
--   a C program on them.
-- - Demo.antt: the tasks and callbacks of examples/capture.rs and examples/env.rs. Demo/Programs.antt:
--   the other programs of examples/, with what they print; Demo/Outputs.antt: what those two print.
-- - Base.antt: the vocabulary of the libraries, Boolean tests, `Result`, and `length`.
-- The other files hold predicates and proofs on the part that they stand under. The modules named
-- Examples, Run/Faults.antt and Demo/Runs.antt hold tests; the modules named Fixtures hold their data.
--
-- Parameters. `K` is the platform's `KillHandle` and `E` is `io::Error`. libc's signals, `setsid` and
-- `waitpid`, the clock, the sleep and std's `Command::spawn` and `Child::wait` are a record of
-- functions on an unknown state, with what is documented of time as `ClockLaws`. The functions of
-- Windows are such a record too. The methods of std's `Command` are a function on the child's
-- environment, with what std documents of them on Unix as `UnixCommandLaws`; on Windows the names of
-- variables are compared without regard to case, and nothing is stated there. A pipe is the sequence
-- of its reads. `CStr::to_str` and `CString::new` are functions, and so are the texts of numbers, the
-- derived `Debug` of a result and `String::from_utf8_lossy`.
--
-- Bounds and fuel. `seq` is a u64 and wraps around. Exit codes are integers, since the program only
-- passes them on. The polling loop of `kill_escalating` runs on fuel, grace / 25 ms + 2 rounds, where
-- the source has no limit: a round that goes on has slept 25 ms or up to the deadline, so this is
-- enough if the clock moves as `ClockLaws` say; with a clock that stands still the source loops for
-- ever. `Instant::now() + grace` is a sum of natural numbers, where the source panics if it overflows.
-- A run has no fuel: the step relation follows every schedule, of any length.
--
-- Not modelled: `fork` and `exec`; the detached wait thread after a panic; the line that the
-- cancelling thread of examples/cancel.rs prints; bindings/dotnet and tests. Memory orderings are
-- sequentially consistent, as the source asks for.
pub mod Base
pub mod State
pub mod Error
pub mod Machine
pub mod Event
pub mod Os
pub mod Task
pub mod Run
pub mod Ffi
pub mod Demo
