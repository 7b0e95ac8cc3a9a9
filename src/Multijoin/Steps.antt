-- ===== src/Multijoin/Steps.antt =====
-- The length of a run of thread_multijoin.cpp: a weight goes down with each step.
use bookcode_linux.Common.{
  ℕ, ◌+◌, ◌*◌, ◌≤◌, ◌<◌, ◌≡◌, refl, List, [], ◌∷◌, ◌++◌, length, arith, ap, subst, sym, ◌∙◌,
}
use bookcode_linux.Common.Tally.{tally, tally-append, tally-change}
use bookcode_linux.Multijoin.{
  alive, terminated, joined, working, locked, marked, unlocked, ended, Thread, thread, Main,
  scanning, State, ThreadStep, MainStep, Step, Reach, begin, next, spurious, start,
}
use bookcode_linux.Multijoin.Invariant.{is_unjoined, Invariant, seen}
use bookcode_linux.Multijoin.Progress.{Reach-Joined}
use bookcode_linux.Multijoin.Weight.{
  to_go, round, main_weight, weight, main_weight-change, main_weight-wake, skip_weight, join_weight,
  scan_start, scan_end,
}

-- The weight, with one thread named.
weight-named :
    (n : ℕ) (s : State) {ts : List Thread}
    → s.threads ≡ ts
    → weight n s ≡ tally to_go ts + main_weight n s.main ts s.num_live
weight-named n s e = ap (λ t. tally to_go t + main_weight n s.main t s.num_live) e

ThreadStep-weight :
    (n : ℕ) {s s' : State} (pre post : List Thread) (t : Thread)
    → s.threads ≡ pre ++ t ∷ post
    → ThreadStep s pre post t s'
    → weight n s' < weight n s
ThreadStep-weight n {s} pre post _ e (ThreadStep.lock free) = omega (
  arith,
  weight-named n s e,
  tally-change to_go pre (thread working alive) (thread locked alive) post,
  main_weight-change n pre post (thread working alive) (thread locked alive) (omega arith) s.main
      s.num_live,
)
ThreadStep-weight n {s} pre post _ e ThreadStep.mark = omega (
  arith,
  weight-named n s e,
  tally-change to_go pre (thread locked alive) (thread marked terminated) post,
  main_weight-change n pre post (thread locked alive) (thread marked terminated) (omega arith)
      s.main s.num_live,
)
ThreadStep-weight n {s} pre post _ e ThreadStep.unlock = omega (
  arith,
  weight-named n s e,
  tally-change to_go pre (thread marked terminated) (thread unlocked terminated) post,
  main_weight-change n pre post (thread marked terminated) (thread unlocked terminated)
      (omega arith) s.main s.num_live,
)
ThreadStep-weight n {s} pre post _ e ThreadStep.signal = omega (
  arith,
  weight-named n s e,
  tally-change to_go pre (thread unlocked terminated) (thread ended terminated) post,
  main_weight-wake n pre post (thread unlocked terminated) (thread ended terminated) (omega arith)
      s.main s.num_live,
)

-- The weight, with the place of the main thread named.
weight-at :
    (n : ℕ) (s : State) {m : Main}
    → s.main ≡ m
    → weight n s ≡ tally to_go s.threads + main_weight n m s.threads s.num_live
weight-at n s e = ap (λ m. tally to_go s.threads + main_weight n m s.threads s.num_live) e

MainStep-weight :
    (n : ℕ) {s s' : State} (m : Main)
    → s.main ≡ m
    → MainStep s m s'
    → Invariant n s
    → weight n s' < weight n s
MainStep-weight n {s} _ e (MainStep.create k) i =
    omega (arith, weight-at n s e, tally-append to_go s.threads (thread working alive ∷ []))
MainStep-weight n {s} _ e MainStep.created i =
    let (x, (l, u)) = seen s e i in
    let all : length s.threads ≡ n = omega (arith, l) in
    omega (arith, weight-at n s e, ap (λ k. k * round n) all)
MainStep-weight n {s} _ e (MainStep.go_on more free) i = omega (arith, weight-at n s e)
MainStep-weight n {s} _ e (MainStep.leave h) i = omega (arith, weight-at n s e)
MainStep-weight n {s} _ e (MainStep.wait h) i = omega (arith, weight-at n s e)
MainStep-weight n {s} _ e (MainStep.scan h) i =
    omega (arith, weight-at n s e, scan_start n s.num_live s.threads (omega (arith, h, i.counted)))
MainStep-weight n {s} _ e (MainStep.relock free) i = omega (arith, weight-at n s e)
MainStep-weight n {s} _ e (MainStep.skip pre post t h ne) i =
    let (x, (l, u, p)) = seen s e i in
    omega (
      arith,
      weight-at n s e,
      subst
          (λ ts.
            main_weight n (scanning (length pre + 1)) ts s.num_live
            < main_weight n (scanning (length pre)) ts s.num_live)
          (sym h)
          (skip_weight n s.num_live pre t post (ap length (sym h) ∙ l)
            (ap (tally is_unjoined) (sym h) ∙ u) ne),
    )
MainStep-weight n {s} _ e (MainStep.join pre post h) i =
    let (x, (l, u, p)) = seen s e i in
    omega (
      arith,
      weight-at n s e,
      ap (λ ts. tally to_go ts + main_weight n (scanning (length pre)) ts s.num_live) h,
      tally-change to_go pre (thread ended terminated) (thread ended joined) post,
      join_weight n s.num_live pre post (ap length (sym h) ∙ l)
          (ap (tally is_unjoined) (sym h) ∙ u),
    )
MainStep-weight n {s} _ e MainStep.scanned i =
    omega (arith, weight-at n s e, scan_end n s.num_live s.threads)

-- The number of steps of a run, and how many of them are wakeups without a signal.
abbrev pub steps : {n : ℕ} {s : State} → Reach n s → ℕ
steps begin = 0
steps (next r step) = steps r + 1
steps (spurious r e) = steps r + 1

abbrev pub wakeups : {n : ℕ} {s : State} → Reach n s → ℕ
wakeups begin = 0
wakeups (next r step) = wakeups r
wakeups (spurious r e) = wakeups r + 1

Step-weight : (n : ℕ) {s s' : State} → Step s s' → Invariant n s → weight n s' < weight n s
Step-weight n (Step.of_thread pre post t e step) i = ThreadStep-weight n pre post t e step
Step-weight n {s} (Step.of_main step) i = MainStep-weight n s.main refl step i

steps-weight :
    (n : ℕ) (s : State) (r : Reach n s) → steps r + weight n s ≤ weight n (start n) + 3 * wakeups r
steps-weight n _ begin = omega arith
steps-weight n s' (next {s} r step) =
    omega (arith, steps-weight n s r, Step-weight n step (Reach-Joined n s r).0)
steps-weight n s' (spurious {s} r e) = omega (arith, steps-weight n s r, weight-at n s e)

-- Every run ends, however the threads are interleaved, unless it wakes up without a signal again
-- and again: with n threads it takes at most n (n + 12) + 4 steps, and three more for each wakeup
-- of pthread_cond_wait(3) without a signal.
pub steps_le :
    (n : ℕ) (s : State) (r : Reach n s) → steps r ≤ n * (n + 5) + 4 + 7 * n + 3 * wakeups r
steps_le n s r = omega (arith, steps-weight n s r)
