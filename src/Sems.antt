-- ===== src/Sems.antt =====
-- One System V semaphore: the binary semaphores of TLPI/svsem/binary_sems.c and the event flags of
-- TLPI/svsem/event_flags.c.
pub mod Laws
pub mod Mutex
mod Tests
use bookcode_linux.Common.{
  ℕ, zero, suc, ◌+◌, ◌-◌, Bool, true, false, ◌&&◌, Option, none, some, List, [], ◌∷◌, ◌==◌, ltb,
  if◌then◌else◌,
}
use bookcode_linux.Io.Posix.{Ret, done, fail, eintr}

-- `sem_op`: -1, 1, or 0, which waits for the value 0.
pub data Op : Type 0 where
  down up wait_zero : Op

-- The kernel lets the operation through at this value.
abbrev pub is_possible : Op → ℕ → Bool
is_possible down v = ltb 0 v
is_possible up v = true
is_possible wait_zero v = v == 0

abbrev pub apply : Op → ℕ → ℕ
apply down v = v - 1
apply up v = v + 1
apply wait_zero v = v

-- What becomes of a waiting semop(2) next: it is tried, or it fails with an `errno`.
pub data Turn : Type 0 where
  tried : Turn
  fails : ℕ → Turn

-- semop(2) in a loop that starts again after an interruption, if `retry` says so. The value is the
-- one at the moment of the call's effect; `none` is a call that still waits.
unfoldable pub until_done : Op → Bool → ℕ → List Turn → Option (Ret × ℕ)
until_done op retry v [] = none
until_done op retry v (tried ∷ ts) =
    let rest = until_done op retry v ts in
    if is_possible op v then some (done 0, apply op v) else rest
until_done op retry v (fails e ∷ ts) =
    let rest = until_done op retry v ts in if e == eintr && retry then rest else some (fail e, v)

-- `bsRetryOnEintr` is the parameter `retry`.
unfoldable pub reserve_sem : Bool → ℕ → List Turn → Option (Ret × ℕ)
unfolding until_done
reserve_sem retry v ts = until_done down retry v ts

unfoldable pub release_sem : ℕ → List Turn → Option (Ret × ℕ)
unfolding until_done
release_sem v ts = until_done up false v ts

unfoldable pub wait_for_event_flag : ℕ → List Turn → Option (Ret × ℕ)
unfolding until_done
wait_for_event_flag v ts = until_done wait_zero true v ts

-- semctl(2) with SETVAL, which may fail.
abbrev pub set_val : ℕ → Option ℕ → ℕ → Ret × ℕ
set_val n none v = (done 0, n)
set_val n (some e) v = (fail e, v)

unfoldable pub init_sem_available : Option ℕ → ℕ → Ret × ℕ
init_sem_available error v = set_val 1 error v

unfoldable pub init_sem_in_use : Option ℕ → ℕ → Ret × ℕ
init_sem_in_use error v = set_val 0 error v

unfoldable pub clear_event_flag : Option ℕ → ℕ → Ret × ℕ
clear_event_flag error v = set_val 1 error v

unfoldable pub set_event_flag : Option ℕ → ℕ → Ret × ℕ
set_event_flag error v = set_val 0 error v

-- The value returned, and what is stored into `*isSet`.
unfoldable pub get_flag_state : Option ℕ → ℕ → Ret × Option Bool
get_flag_state none v = (done 0, some (v == 0))
get_flag_state (some e) v = (fail e, none)
