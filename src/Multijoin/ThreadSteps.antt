-- ===== src/Multijoin/ThreadSteps.antt =====
-- The steps of a thread of thread_multijoin.cpp keep the invariant.
use bookcode_linux.Common.{ℕ, ◌+◌, ◌≡◌, refl, Bool, true, false, List, ◌∷◌, ◌++◌, arith, ap, ◌∙◌}
use bookcode_linux.Common.Tally.{tally, tally-change, All-change}
use bookcode_linux.Multijoin.{
  alive, terminated, working, locked, marked, unlocked, ended, Thread, thread, State, ThreadStep,
}
use bookcode_linux.Multijoin.Invariant.{
  is_terminated, holds, main_holds, taken, Invariant, At-change, At-wake, wake-holds, named,
}

released : (b : Bool) (p q m : ℕ) → p + m ≡ taken b → q + 1 ≡ p + 0 → q + m ≡ 0
released true p q m h k = omega (arith, h, k)
released false p q m h k = omega (arith, h, k)

pub ThreadStep-Invariant :
    {n : ℕ} {s s' : State} (pre post : List Thread) (t : Thread)
    → s.threads ≡ pre ++ t ∷ post
    → ThreadStep s pre post t s'
    → Invariant n s
    → Invariant n s'
ThreadStep-Invariant {n} {s} pre post _ e (ThreadStep.lock free) i =
    let (f, c, x, a) = named s e i in
    record {
      fits = All-change _ pre (thread working alive) (thread locked alive) post (λ h. refl) f;
      counted = omega (
        arith,
        c,
        tally-change is_terminated pre (thread working alive) (thread locked alive) post,
      );
      exclusive =
          let y : tally holds (pre ++ thread working alive ∷ post) + main_holds s.main ≡ 0 =
            x ∙ ap taken free in
          omega
            (arith, y, tally-change holds pre (thread working alive) (thread locked alive) post);
      at =
          At-change n pre post (thread working alive) (thread locked alive) refl s.main s.num_live
            refl a;
    }
ThreadStep-Invariant {n} {s} pre post _ e ThreadStep.mark i =
    let (f, c, x, a) = named s e i in
    record {
      fits = All-change _ pre (thread locked alive) (thread marked terminated) post (λ h. refl) f;
      counted = omega (
        arith,
        c,
        tally-change is_terminated pre (thread locked alive) (thread marked terminated) post,
      );
      exclusive =
          omega (
            arith,
            x,
            tally-change holds pre (thread locked alive) (thread marked terminated) post,
          );
      at =
          At-change n pre post (thread locked alive) (thread marked terminated) refl s.main
            s.num_live refl a;
    }
ThreadStep-Invariant {n} {s} pre post _ e ThreadStep.unlock i =
    let (f, c, x, a) = named s e i in
    record {
      fits =
          All-change _ pre (thread marked terminated) (thread unlocked terminated) post (λ h. refl)
            f;
      counted = omega (
        arith,
        c,
        tally-change is_terminated pre (thread marked terminated) (thread unlocked terminated) post,
      );
      exclusive =
          released s.mutex (tally holds (pre ++ thread marked terminated ∷ post))
            (tally holds (pre ++ thread unlocked terminated ∷ post)) (main_holds s.main) x
            (tally-change holds pre (thread marked terminated) (thread unlocked terminated) post);
      at =
          At-change n pre post (thread marked terminated) (thread unlocked terminated) refl s.main
            s.num_live refl a;
    }
ThreadStep-Invariant {n} {s} pre post _ e ThreadStep.signal i =
    let (f, c, x, a) = named s e i in
    record {
      fits =
          All-change _ pre (thread unlocked terminated) (thread ended terminated) post
            (λ h. λ k. absurd cc) f;
      counted = omega (
        arith,
        c,
        tally-change is_terminated pre (thread unlocked terminated) (thread ended terminated) post,
      );
      exclusive = omega (
        arith,
        x,
        wake-holds s.main,
        tally-change holds pre (thread unlocked terminated) (thread ended terminated) post,
      );
      at =
          At-wake n pre post (thread unlocked terminated) (thread ended terminated) refl s.main
            s.num_live a;
    }
