-- ===== src/Multijoin/Progress.antt =====
-- thread_multijoin.cpp in every reachable state: the invariant, and that no state is stuck.
use bookcode_linux.Common.{
  ℕ, zero, suc, ◌+◌, ◌-◌, ◌<◌, ◌≡◌, ◌≢◌, refl, inl, inr, ◌⊎◌, false, List, ◌∷◌, ◌++◌, length, All,
  arith, ap, subst, sym, ◌∙◌, Bool-cases,
}
use bookcode_linux.Common.Tally.{tally, All-at, tally-Place}
use bookcode_linux.Multijoin.{
  Tstate, alive, terminated, joined, Phase, working, locked, marked, unlocked, ended, Thread,
  thread, Main, creating, testing, checking, asleep, woken, scanning, exited, State, ThreadStep,
  MainStep, Step, Reach, begin, next, spurious,
}
use bookcode_linux.Multijoin.ThreadSteps.{ThreadStep-Invariant}
use bookcode_linux.Multijoin.Invariant.{
  is_unjoined, holds, will_signal, taken, Fits, Invariant, seen,
}
use bookcode_linux.Multijoin.MainSteps.{MainStep-Invariant}
use bookcode_linux.Common.Tally.{index-Place, tally-zero, zero_or_more}

Reach-Invariant : (n : ℕ) (s : State) → Reach n s → Invariant n s
Reach-Invariant n _ begin = record {
  fits = tt;
  counted = refl;
  exclusive = refl;
  at = (omega arith, refl);
}
Reach-Invariant n _ (next {s} r (Step.of_thread pre post t e step)) =
    ThreadStep-Invariant pre post t e step (Reach-Invariant n s r)
Reach-Invariant n _ (next {s} r (Step.of_main step)) =
    MainStep-Invariant s.main refl step (Reach-Invariant n s r)
Reach-Invariant n _ (spurious {s} r e) =
    let i = Reach-Invariant n s r in
    let (x, (l, u, p, w)) = seen s e i in
    record { fits = i.fits; counted = i.counted; exclusive = x; at = (l, u, p) }

-- Some thread takes a step.
abbrev pub Moves : State → Type 0
Moves s = (s' : State) × Step s s'

module _ (s : State) where
  thread_moves :
      (pre post : List Thread) (p : Phase) (st : Tstate)
      → s.threads ≡ pre ++ thread p st ∷ post
      → Fits p st
      → (p ≡ working → s.mutex ≡ false)
      → p ≢ ended
      → Moves s
  thread_moves pre post working alive e f free going =
      (_, Step.of_thread pre post (thread working alive) e (ThreadStep.lock (free refl)))
  thread_moves pre post locked alive e f free going =
      (_, Step.of_thread pre post (thread locked alive) e ThreadStep.mark)
  thread_moves pre post marked terminated e f free going =
      (_, Step.of_thread pre post (thread marked terminated) e ThreadStep.unlock)
  thread_moves pre post unlocked terminated e f free going =
      (_, Step.of_thread pre post (thread unlocked terminated) e ThreadStep.signal)
  thread_moves pre post ended st e f free going = absurd (going refl)
  thread_moves pre post working terminated e f free going = absurd cc
  thread_moves pre post working joined e f free going = absurd cc
  thread_moves pre post locked terminated e f free going = absurd cc
  thread_moves pre post locked joined e f free going = absurd cc
  thread_moves pre post marked alive e f free going = absurd cc
  thread_moves pre post marked joined e f free going = absurd cc
  thread_moves pre post unlocked alive e f free going = absurd cc
  thread_moves pre post unlocked joined e f free going = absurd cc

  holds-going : (p : Phase) (st : Tstate) → 0 < holds (thread p st) → (p ≢ working) × (p ≢ ended)
  holds-going working st h = absurd (omega arith)
  holds-going locked st h = ((λ e. cc), (λ e. cc))
  holds-going marked st h = ((λ e. cc), (λ e. cc))
  holds-going unlocked st h = absurd (omega arith)
  holds-going ended st h = absurd (omega arith)

  -- The thread with the mutex goes on.
  holder_moves : All (λ t. Fits t.phase t.tstate) s.threads → 0 < tally holds s.threads → Moves s
  holder_moves fits more =
      let (pre, t, post, e, h) = tally-Place holds s.threads more in
      let (idle, going) = holds-going t.phase t.tstate h in
      thread_moves pre post t.phase t.tstate e
        (All-at (λ x. Fits x.phase x.tstate) pre t post
          (subst (All (λ x. Fits x.phase x.tstate)) e fits))
        (λ k. absurd (idle k)) going

  main_moves : {m : Main} {s' : State} → s.main ≡ m → MainStep s m s' → Moves s
  main_moves {m} {s'} e step = (s', Step.of_main (subst (λ k. MainStep s k s') (sym e) step))

  -- With the mutex free one step is possible, else the holder goes on.
  free_or_held :
      All (λ t. Fits t.phase t.tstate) s.threads
      → tally holds s.threads + 0 ≡ taken s.mutex
      → (s.mutex ≡ false → Moves s)
      → Moves s
  free_or_held fits x free = elim (Bool-cases s.mutex) [
    | inl t ↦
        let y : tally holds s.threads + 0 ≡ 1 = x ∙ ap taken t in
        holder_moves fits (omega (arith, y))
    | inr f ↦ free f
  ]

  will_signal-going : (p : Phase) (st : Tstate) → 0 < will_signal (thread p st) → p ≢ ended
  will_signal-going working st h = λ e. cc
  will_signal-going locked st h = λ e. cc
  will_signal-going marked st h = λ e. cc
  will_signal-going unlocked st h = λ e. cc
  will_signal-going ended st h = absurd (omega arith)

  -- While the main thread waits with the mutex free, a thread goes on.
  signaller_moves :
      All (λ t. Fits t.phase t.tstate) s.threads
      → 0 < tally will_signal s.threads
      → s.mutex ≡ false
      → Moves s
  signaller_moves fits more free =
      let (pre, t, post, e, h) = tally-Place will_signal s.threads more in
      thread_moves pre post t.phase t.tstate e
        (All-at (λ x. Fits x.phase x.tstate) pre t post
          (subst (All (λ x. Fits x.phase x.tstate)) e fits))
        (λ k. free) (will_signal-going t.phase t.tstate h)

  -- At an index of the scan: the thread is passed over or joined, or goes on to its end.
  scan_moves :
      (pre post : List Thread) (p : Phase) (st : Tstate)
      → s.main ≡ scanning (length pre)
      → s.threads ≡ pre ++ thread p st ∷ post
      → Fits p st
      → Moves s
  scan_moves pre post p alive m e f =
      main_moves m (MainStep.skip pre post (thread p alive) e (λ h. cc))
  scan_moves pre post p joined m e f =
      main_moves m (MainStep.skip pre post (thread p joined) e (λ h. cc))
  scan_moves pre post ended terminated m e f = main_moves m (MainStep.join pre post e)
  scan_moves pre post marked terminated m e f =
      thread_moves pre post marked terminated e f (λ h. absurd cc) (λ h. cc)
  scan_moves pre post unlocked terminated m e f =
      thread_moves pre post unlocked terminated e f (λ h. absurd cc) (λ h. cc)
  scan_moves pre post working terminated m e f = absurd cc
  scan_moves pre post locked terminated m e f = absurd cc

  -- The program has left the loop, with every thread joined.
  abbrev pub AllJoined : Type 0
  AllJoined = (s.main ≡ exited) × All (λ t. is_unjoined t ≡ 0) s.threads

  moves_on : {n : ℕ} (m : Main) → s.main ≡ m → Invariant n s → AllJoined ⊎ Moves s
  moves_on (creating zero) e i = inr (main_moves e MainStep.created)
  moves_on (creating (suc k)) e i = inr (main_moves e (MainStep.create k))
  moves_on testing e i = elim (zero_or_more s.num_live) [
    | inl h ↦ inr (main_moves e (MainStep.leave h))
    | inr h ↦
        inr (free_or_held i.fits (seen s e i).0 (λ free. main_moves e (MainStep.go_on h free)))
  ]
  moves_on checking e i = elim (zero_or_more s.num_unjoined) [
    | inl h ↦ inr (main_moves e (MainStep.wait h))
    | inr h ↦ inr (main_moves e (MainStep.scan h))
  ]
  moves_on asleep e i =
      let (x, (l, u, p, q)) = seen s e i in inr (free_or_held i.fits x (signaller_moves i.fits q))
  moves_on woken e i =
      inr (free_or_held i.fits (seen s e i).0 (λ free. main_moves e (MainStep.relock free)))
  moves_on (scanning k) e i =
      let (x, (l, u, p)) = seen s e i in
      inr (elim (zero_or_more (length s.threads - k)) [
        | inl h ↦
            let here : k ≡ length s.threads = omega (arith, h, p) in
            main_moves (e ∙ ap scanning here) MainStep.scanned
        | inr h ↦
            let (pre, t, post, eq, at) = index-Place s.threads k (omega (arith, h)) in
            scan_moves pre post t.phase t.tstate (e ∙ ap scanning (sym at)) eq (
              All-at (λ y. Fits y.phase y.tstate) pre t post
                (subst (All (λ y. Fits y.phase y.tstate)) eq i.fits))
      ])
  moves_on exited e i =
      let (x, (l, u, h)) = seen s e i in inl (e, tally-zero is_unjoined s.threads (u ∙ h))

-- However the threads are interleaved: `numUnjoined` counts the threads that have set their state
-- and are not joined; the state of a thread fits what it has done; at most one thread has the
-- mutex; `numLive`, once it is set, counts the threads that are not joined; while the main thread
-- waits for the condition variable, a signal is to come. And no state is stuck: a thread can take
-- a step, or the main thread has left the loop, with every thread joined.
pub Reach-Joined : (n : ℕ) (s : State) → Reach n s → Invariant n s × (AllJoined s ⊎ Moves s)
Reach-Joined n s r = (Reach-Invariant n s r, moves_on s s.main refl (Reach-Invariant n s r))
