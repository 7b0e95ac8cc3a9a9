-- ===== src/Condvar.antt =====
-- The program TLPI/ch29-threads/prod_condvar.cpp: producers that hand units to the main thread
-- under a mutex and a condition variable, as a step relation.
pub mod Invariant
pub mod Steps
pub mod Progress
mod Tests
use bookcode_linux.Common.{
  ℕ, zero, suc, ◌+◌, ◌-◌, ◌<◌, ◌≤◌, ◌^◌, ◌≡◌, Bool, true, false, List, [], ◌∷◌, ◌++◌, leb,
}

-- Where a producer stands in `threadFunc`: at the test of its loop; with the mutex; with the unit
-- counted; with the mutex given back and the signal to send.
pub data Phase : Type 0 where
  idle : Phase
  locked : Phase
  added : Phase
  unlocked : Phase

-- The counters are of type int. Above this it is undefined what an increment does, and the step
-- does not take place.
abbrev pub int_max : ℕ
int_max = 2 ^ 31 - 1

-- A producer, with the units that it has not counted yet.
pub record Producer : Type 0 where
  pub phase : Phase
  pub units : ℕ

abbrev pub producer : Phase → ℕ → Producer
producer p k = record { phase = p; units = k }

-- Where the main thread stands: with arguments to create producers for; before the mutex; with it
-- at the test of `avail == 0`; waiting for the condition variable; woken and before the mutex;
-- with the mutex at the test of `avail > 0`; at the test of `done`; at the end.
pub data Main : Type 0 where
  creating : List ℕ → Main
  locking : Main
  checking : Main
  asleep : Main
  woken : Main
  consuming : Main
  deciding : Main
  exited : Main

pub record State : Type 0 where
  pub main : Main
  pub producers : List Producer
  pub avail : ℕ
  pub tot_required : ℕ
  pub num_consumed : ℕ
  pub done : Bool
  pub mutex : Bool

-- pthread_cond_signal(3): only the main thread ever waits.
abbrev pub wake : Main → Main
wake asleep = woken
wake (creating args) = creating args
wake locking = locking
wake checking = checking
wake woken = woken
wake consuming = consuming
wake deciding = deciding
wake exited = exited

-- One step of a producer, among the others of the list.
pub data ProducerStep (s : State) (pre post : List Producer) : Producer → State → Type 0 where
  lock :
      (k : ℕ)
      → s.mutex ≡ false
      → ProducerStep s pre post
          (producer idle (suc k))
          (record s { producers = pre ++ producer locked (suc k) ∷ post; mutex = true })
  add :
      (k : ℕ)
      → s.avail < int_max
      → ProducerStep s pre post
          (producer locked (suc k))
          (record s { producers = pre ++ producer added k ∷ post; avail = s.avail + 1 })
  unlock :
      (k : ℕ)
      → ProducerStep s pre post
          (producer added k)
          (record s { producers = pre ++ producer unlocked k ∷ post; mutex = false })
  signal :
      (k : ℕ)
      → ProducerStep s pre post
          (producer unlocked k)
          (record s { producers = pre ++ producer idle k ∷ post; main = wake s.main })

-- One step of the main thread.
pub data MainStep (s : State) : Main → State → Type 0 where
  create :
      (cnt : ℕ) (args : List ℕ)
      → s.tot_required + cnt ≤ int_max
      → MainStep s (creating (cnt ∷ args)) (record s {
        main = creating args;
        tot_required = s.tot_required + cnt;
        producers = s.producers ++ producer idle cnt ∷ [];
      })
  created : MainStep s (creating []) (record s { main = locking; num_consumed = 0; done = false })
  lock : s.mutex ≡ false → MainStep s locking (record s { main = checking; mutex = true })
  wait : s.avail ≡ 0 → MainStep s checking (record s { main = asleep; mutex = false })
  relock : s.mutex ≡ false → MainStep s woken (record s { main = checking; mutex = true })
  take : 0 < s.avail → MainStep s checking (record s { main = consuming })
  consume :
      0 < s.avail
      → s.num_consumed < int_max
      → MainStep s consuming (record s {
        main = consuming;
        num_consumed = s.num_consumed + 1;
        avail = s.avail - 1;
        done = leb s.tot_required (s.num_consumed + 1);
      })
  unlock : s.avail ≡ 0 → MainStep s consuming (record s { main = deciding; mutex = false })
  finish : s.done ≡ true → MainStep s deciding (record s { main = exited })
  repeat : s.done ≡ false → MainStep s deciding (record s { main = locking })

pub data Step (s : State) : State → Type 0 where
  of_producer :
      {s' : State} (pre post : List Producer) (p : Producer)
      → s.producers ≡ pre ++ p ∷ post
      → ProducerStep s pre post p s'
      → Step s s'
  of_main : {s' : State} → MainStep s s.main s' → Step s s'

-- The start of `main` for the numbers in `argv`, none of them negative; what the last two hold
-- before the loop is not read.
abbrev pub start : List ℕ → State
start args = record {
  main = creating args;
  producers = [];
  avail = 0;
  tot_required = 0;
  num_consumed = 0;
  done = false;
  mutex = false;
}

-- A run; pthread_cond_wait(3) may return without a signal.
pub data Reach (args : List ℕ) : State → Type 0 where
  begin : Reach args (start args)
  next : {s s' : State} → Reach args s → Step s s' → Reach args s'
  spurious : {s : State} → Reach args s → s.main ≡ asleep → Reach args (record s { main = woken })
