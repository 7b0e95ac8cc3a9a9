-- ===== src/Multijoin.antt =====
-- The program TLPI/ch29-threads/thread_multijoin.cpp, whose main thread joins its threads in the
-- order in which they end, as a step relation.
pub mod Invariant
pub mod ThreadSteps
pub mod MainSteps
pub mod Progress
pub mod Weight
pub mod Steps
mod Tests
use bookcode_linux.Common.{
  ℕ, zero, suc, ◌+◌, ◌-◌, ◌<◌, ◌≡◌, ◌≢◌, Bool, true, false, List, [], ◌∷◌, ◌++◌, length,
}

-- `enum tstate`
pub data Tstate : Type 0 where
  alive : Tstate
  terminated : Tstate
  joined : Tstate

-- Where a thread stands in `threadFunc`: it sleeps or wants the mutex; has the mutex; has set its
-- state; has given the mutex back; has sent the signal and is at its end.
pub data Phase : Type 0 where
  working : Phase
  locked : Phase
  marked : Phase
  unlocked : Phase
  ended : Phase

-- `struct threadinfo_st`, and the thread itself.
pub record Thread : Type 0 where
  pub phase : Phase
  pub tstate : Tstate

abbrev pub thread : Phase → Tstate → Thread
thread p s = record { phase = p; tstate = s }

-- Where the main thread stands: it has `k` threads to create; is at the test of the outer loop; has
-- the mutex at the test of the inner loop; waits for the condition variable; was woken and wants
-- the mutex; is at an index of the scan; has left the loop.
pub data Main : Type 0 where
  creating : ℕ → Main
  testing : Main
  checking : Main
  asleep : Main
  woken : Main
  scanning : ℕ → Main
  exited : Main

-- The global variables and the two kinds of threads.
pub record State : Type 0 where
  pub main : Main
  pub threads : List Thread
  pub num_live : ℕ
  pub num_unjoined : ℕ
  pub mutex : Bool

-- pthread_cond_signal(3): only the main thread ever waits.
abbrev pub wake : Main → Main
wake asleep = woken
wake (creating k) = creating k
wake testing = testing
wake checking = checking
wake woken = woken
wake (scanning i) = scanning i
wake exited = exited

-- One step of a thread, among the others of the list.
pub data ThreadStep (s : State) (pre post : List Thread) : Thread → State → Type 0 where
  lock :
      s.mutex ≡ false
      → ThreadStep s pre post
          (thread working alive)
          (record s { threads = pre ++ thread locked alive ∷ post; mutex = true })
  mark : ThreadStep s pre post (thread locked alive) (record s {
    threads = pre ++ thread marked terminated ∷ post;
    num_unjoined = s.num_unjoined + 1;
  })
  unlock :
      ThreadStep s pre post
        (thread marked terminated)
        (record s { threads = pre ++ thread unlocked terminated ∷ post; mutex = false })
  signal :
      ThreadStep s pre post
        (thread unlocked terminated)
        (record s { threads = pre ++ thread ended terminated ∷ post; main = wake s.main })

-- One step of the main thread. pthread_join(3) waits until the thread has ended.
pub data MainStep (s : State) : Main → State → Type 0 where
  create :
      (k : ℕ)
      → MainStep s
          (creating (suc k))
          (record s { main = creating k; threads = s.threads ++ thread working alive ∷ [] })
  created : MainStep s (creating zero) (record s { main = testing; num_live = length s.threads })
  go_on :
      0 < s.num_live
      → s.mutex ≡ false
      → MainStep s testing (record s { main = checking; mutex = true })
  leave : s.num_live ≡ 0 → MainStep s testing (record s { main = exited })
  wait : s.num_unjoined ≡ 0 → MainStep s checking (record s { main = asleep; mutex = false })
  scan : 0 < s.num_unjoined → MainStep s checking (record s { main = scanning 0 })
  relock : s.mutex ≡ false → MainStep s woken (record s { main = checking; mutex = true })
  skip :
      (pre post : List Thread) (t : Thread)
      → s.threads ≡ pre ++ t ∷ post
      → t.tstate ≢ terminated
      → MainStep s (scanning (length pre)) (record s { main = scanning (length pre + 1) })
  join :
      (pre post : List Thread)
      → s.threads ≡ pre ++ thread ended terminated ∷ post
      → MainStep s (scanning (length pre)) (record s {
        main = scanning (length pre + 1);
        threads = pre ++ thread ended joined ∷ post;
        num_live = s.num_live - 1;
        num_unjoined = s.num_unjoined - 1;
      })
  scanned : MainStep s (scanning (length s.threads)) (record s { main = testing; mutex = false })

pub data Step (s : State) : State → Type 0 where
  of_thread :
      {s' : State} (pre post : List Thread) (t : Thread)
      → s.threads ≡ pre ++ t ∷ post
      → ThreadStep s pre post t s'
      → Step s s'
  of_main : {s' : State} → MainStep s s.main s' → Step s s'

-- With `n` arguments.
abbrev pub start : ℕ → State
start n = record { main = creating n; threads = []; num_live = 0; num_unjoined = 0; mutex = false }

-- A run; pthread_cond_wait(3) may return without a signal.
pub data Reach (n : ℕ) : State → Type 0 where
  begin : Reach n (start n)
  next : {s s' : State} → Reach n s → Step s s' → Reach n s'
  spurious : {s : State} → Reach n s → s.main ≡ asleep → Reach n (record s { main = woken })
