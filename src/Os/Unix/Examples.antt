-- ===== src/Os/Unix/Examples.antt =====
-- The kill of src/os/unix.rs on a system with one process tree, which dies at a given time.
use aer_core.Base.{ℕ, ◌+◌, ◌*◌, ◌^◌, ◌≤◌, ◌≡◌, refl, ◌⊎◌, some, [], ◌∷◌, ok, arith}
use aer_core.Os.Unix.{
  probe, sigterm, sigkill, Sent, System, Reply, tree_alive, kill_escalating, poll, deliver,
}
use aer_core.Os.Fixtures.{dies_at, start}
use aer_core.Os.Unix.Effect.{Achieved, kill_escalating-Achieved}
use aer_core.Os.Unix.Escalation.{ClockLaws, sigkills, kill_escalating_waits}

abbrev millis : ℕ → ℕ
millis n = n * 10 ^ 6

dies_at-ClockLaws : (limit : ℕ) → ClockLaws (dies_at limit) (λ w. w)
dies_at-ClockLaws limit = record {
  clock-killpg = λ k sig w. omega arith;
  clock-kill = λ k sig w. omega arith;
  now_reads = λ w. (omega arith, omega arith);
  clock-sleep = λ d w. omega arith;
}

abbrev stubborn : System ℕ
stubborn = dies_at (millis 1000)

-- A tree that does not die is probed until the grace period is over, and killed then.
abbrev killed : Reply ℕ (Unit {0})
killed = (
  ok tt,
  record {
    state = millis 60;
    sent =
        Sent.group sigkill 7
        ∷ Sent.group probe 7
        ∷ Sent.group probe 7
        ∷ Sent.group probe 7
        ∷ Sent.group probe 7
        ∷ Sent.group sigterm 7
        ∷ [];
  },
)

kills : kill_escalating stubborn 7 (millis 60) start ≡ some killed
unfolding kill_escalating poll deliver tree_alive
kills = refl

-- A tree that dies in time is not killed, and the call does not wait for the grace period.
spares :
    kill_escalating (dies_at (millis 20)) 7 (millis 60) start
    ≡ some (
      ok tt,
      record {
        state = millis 25;
        sent =
            Sent.process probe 7
            ∷ Sent.group probe 7
            ∷ Sent.group probe 7
            ∷ Sent.group sigterm 7
            ∷ [];
      },
    )
unfolding kill_escalating poll deliver tree_alive
spares = refl

kill_escalating_waits_example :
    (r : Reply ℕ (Unit {0})) × (kill_escalating stubborn 7 (millis 60) start ≡ some r)
    × ((sigkills r.1.sent ≡ sigkills start.sent) ⊎ (start.state + millis 60 ≤ r.1.state))
kill_escalating_waits_example =
    kill_escalating_waits stubborn 7 (λ w. w) (dies_at-ClockLaws (millis 1000)) (millis 60) start

kill_escalating-Achieved_example : Achieved stubborn 7 killed
kill_escalating-Achieved_example =
    kill_escalating-Achieved stubborn 7 (millis 60) start killed kills
