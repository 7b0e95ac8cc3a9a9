-- ===== src/Multijoin/Tests.antt =====
-- A run of thread_multijoin.cpp with one thread.
use bookcode_linux.Common.{◌≤◌, ◌+◌, ◌*◌, refl, [], ◌⊎◌, true, ◌∷◌, arith}
use bookcode_linux.Multijoin.{
  State, thread, working, locked, alive, asleep, woken, Reach, spurious, begin, next, Step,
  MainStep, ThreadStep,
}
use bookcode_linux.Multijoin.Invariant.{Invariant}
use bookcode_linux.Multijoin.Steps.{steps, wakeups, steps_le}
use bookcode_linux.Multijoin.Progress.{Reach-Joined, AllJoined, Moves}

-- The main thread waits, and the thread has the mutex.
abbrev waiting : State
waiting = record {
  main = asleep;
  threads = thread locked alive ∷ [];
  num_live = 1;
  num_unjoined = 0;
  mutex = true;
}

run : Reach 1 waiting
run =
    next
      (next
        (next (next (next begin (Step.of_main (MainStep.create 0))) (Step.of_main MainStep.created))
          (Step.of_main (MainStep.go_on (omega arith) refl)))
        (Step.of_main (MainStep.wait refl)))
      (Step.of_thread [] [] (thread working alive) refl (ThreadStep.lock refl))

Reach-Joined_example : Invariant 1 waiting × (AllJoined waiting ⊎ Moves waiting)
Reach-Joined_example = Reach-Joined 1 waiting run

-- The main thread wakes up without a signal while the thread has the mutex.
run_spurious : Reach 1 (record waiting { main = woken })
run_spurious = spurious run refl

steps_le_example : steps run_spurious ≤ 1 * (1 + 5) + 4 + 7 * 1 + 3 * wakeups run_spurious
steps_le_example = steps_le 1 (record waiting { main = woken }) run_spurious
