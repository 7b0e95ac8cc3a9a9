-- ===== src/Sems/Tests.antt =====
-- One semaphore, two processes.
use bookcode_linux.Common.{◌≡◌, refl, true, false, none, some, List, [], ◌∷◌}
use bookcode_linux.Io.Posix.{done, fail, eintr}
use bookcode_linux.Sems.{
  Turn, tried, fails, until_done, reserve_sem, wait_for_event_flag, get_flag_state,
}
use bookcode_linux.Sems.Laws.{put_flag, interrupts, waited, wait_for_event_flag_lem}
use bookcode_linux.Sems.Mutex.{Lock}

-- An interruption, and then a try.
abbrev turns : List Turn
turns = fails eintr ∷ tried ∷ []

retried : reserve_sem true 1 turns ≡ some (done 0, 0)
unfolding reserve_sem until_done
retried = refl

given_up : reserve_sem false 1 turns ≡ some (fail eintr, 1)
unfolding reserve_sem until_done
given_up = refl

abbrev taken : Lock
taken = record { value = 0; inside = true ∷ false ∷ [] }

wait_for_event_flag_lem_example :
    (wait_for_event_flag (put_flag true 1) (interrupts 2) ≡ waited true (put_flag true 1))
    × (get_flag_state none (put_flag true 1) ≡ (done 0, some true))
wait_for_event_flag_lem_example = wait_for_event_flag_lem true 1 2
