-- ===== src/Sems/Laws.antt =====
-- What the calls on one semaphore return, and what they leave.
use bookcode_linux.Common.{
  ℕ, zero, suc, ◌≡◌, refl, Bool, true, false, ◌&&◌, Option, none, some, List, [], ◌∷◌, ◌==◌,
  if_rule,
}
use bookcode_linux.Io.Posix.{Ret, done, fail, eintr}
use bookcode_linux.Sems.{
  Op, down, wait_zero, is_possible, apply, Turn, tried, fails, until_done, reserve_sem,
  wait_for_event_flag, set_event_flag, clear_event_flag, get_flag_state,
}

-- A success is the operation, done at a value that allows it; a failure leaves the value alone,
-- and is no interruption if those are tried again.
abbrev pub Result : Op → Bool → ℕ → Option (Ret × ℕ) → Type 0
Result op retry v none = Unit
Result op retry v (some (done n, v')) = (n ≡ 0) × (is_possible op v ≡ true) × (v' ≡ apply op v)
Result op retry v (some (fail e, v')) = ((e == eintr && retry) ≡ false) × (v' ≡ v)

pub until_done-Result :
    (op : Op) (retry : Bool) (v : ℕ) (ts : List Turn) → Result op retry v (until_done op retry v ts)
unfolding until_done
until_done-Result op retry v [] = tt
until_done-Result op retry v (tried ∷ ts) =
    if_rule (Result op retry v) (is_possible op v) (λ t. (refl, t, refl))
      (λ f. until_done-Result op retry v ts)
until_done-Result op retry v (fails e ∷ ts) =
    if_rule (Result op retry v) (e == eintr && retry) (λ t. until_done-Result op retry v ts)
      (λ f. (f, refl))

-- `reserveSem`, if it returns: either 0, with the semaphore taken down from a value above 0; or a
-- failure that leaves the value alone and is no interruption while `bsRetryOnEintr` is set.
pub reserve_sem_lem :
    (retry : Bool) (v : ℕ) (ts : List Turn) → Result down retry v (reserve_sem retry v ts)
unfolding reserve_sem
reserve_sem_lem retry v ts = until_done-Result down retry v ts

-- The flag is set or cleared, then waited for.
abbrev pub put_flag : Bool → ℕ → ℕ
put_flag true v = (set_event_flag none v).1
put_flag false v = (clear_event_flag none v).1

-- Interruptions, and then a try.
abbrev pub interrupts : ℕ → List Turn
interrupts zero = tried ∷ []
interrupts (suc k) = fails eintr ∷ interrupts k

abbrev pub waited : Bool → ℕ → Option (Ret × ℕ)
waited true v = some (done 0, v)
waited false v = none

interrupted_wait :
    (k : ℕ) (b : Bool) (v : ℕ)
    → (v == 0) ≡ b
    → until_done wait_zero true v (interrupts k) ≡ waited b v
unfolding until_done
interrupted_wait zero true v h = rw h refl
interrupted_wait zero false v h = rw h refl
interrupted_wait (suc k) b v h = interrupted_wait k b v h

-- Once the flag has been set, `waitForEventFlag` returns 0 however often it is interrupted before
-- it is tried; once it has been cleared, it waits on; and `getFlagState` stores which of the two
-- was done last.
pub wait_for_event_flag_lem :
    (b : Bool) (v k : ℕ)
    → (wait_for_event_flag (put_flag b v) (interrupts k) ≡ waited b (put_flag b v))
      × (get_flag_state none (put_flag b v) ≡ (done 0, some b))
unfolding wait_for_event_flag set_event_flag clear_event_flag get_flag_state
wait_for_event_flag_lem true v k = (interrupted_wait k true 0 refl, refl)
wait_for_event_flag_lem false v k = (interrupted_wait k false 1 refl, refl)
