-- ===== src/Condvar/Tests.antt =====
-- Runs of prod_condvar.cpp.
use bookcode_linux.Common.{◌≡◌, refl, [], ◌∷◌, ◌⊎◌, true, false, arith}
use bookcode_linux.Condvar.{
  State, producer, idle, locked, asleep, exited, Reach, begin, next, Step, MainStep, ProducerStep,
}
use bookcode_linux.Condvar.Invariant.{Invariant}
use bookcode_linux.Condvar.Progress.{Reach-Consumed, Moves}

-- The main thread waits, and the producer of two units has the mutex.
abbrev waiting : State
waiting = record {
  main = asleep;
  producers = producer locked 2 ∷ [];
  avail = 0;
  tot_required = 2;
  num_consumed = 0;
  done = false;
  mutex = true;
}

run : Reach (2 ∷ []) waiting
run =
    next
      (next
        (next
          (next (next begin (Step.of_main (MainStep.create 2 [] (omega arith))))
            (Step.of_main MainStep.created))
          (Step.of_main (MainStep.lock refl)))
        (Step.of_main (MainStep.wait refl)))
      (Step.of_producer [] [] (producer idle 2) refl (ProducerStep.lock 1 refl))

Reach-Consumed_example :
    Invariant 2 waiting × (((waiting.main ≡ exited) × (waiting.num_consumed ≡ 2)) ⊎ Moves waiting)
Reach-Consumed_example = Reach-Consumed (2 ∷ []) waiting (omega arith) (omega arith) run

-- With no unit asked for, the main thread waits for ever: the only producer is at its end.
abbrev stuck : State
stuck = record {
  main = asleep;
  producers = producer idle 0 ∷ [];
  avail = 0;
  tot_required = 0;
  num_consumed = 0;
  done = false;
  mutex = false;
}

waits_for_ever : Reach (0 ∷ []) stuck
waits_for_ever =
    next
      (next
        (next (next begin (Step.of_main (MainStep.create 0 [] (omega arith))))
          (Step.of_main MainStep.created))
        (Step.of_main (MainStep.lock refl)))
      (Step.of_main (MainStep.wait refl))
