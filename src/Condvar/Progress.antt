-- ===== src/Condvar/Progress.antt =====
-- prod_condvar.cpp in every reachable state: the invariant, and that no state is stuck.
use bookcode_linux.Common.{
  Bool-cases, ℕ, zero, suc, ◌+◌, ◌<◌, ◌≤◌, ◌≡◌, ◌≢◌, refl, inl, inr, ◌⊎◌, false, List, [], ◌∷◌,
  ◌++◌, All, arith, ap, subst, sym, ◌∙◌,
}
use bookcode_linux.Common.Tally.{tally}
use bookcode_linux.Condvar.{
  Phase, idle, locked, added, unlocked, Producer, producer, Main, creating, locking, checking,
  asleep, woken, consuming, deciding, exited, State, ProducerStep, MainStep, Step, Reach, begin,
  next, spurious, int_max,
}
use bookcode_linux.Common.Tally.{All-at, tally-Place, tally-at, zero_or_more}
use bookcode_linux.Condvar.Invariant.{
  units, At, more, holds, will_signal, taken, Fits, sum, Invariant, seen,
}
use bookcode_linux.Condvar.Steps.{ProducerStep-Invariant, MainStep-Invariant}

Reach-Invariant : (args : List ℕ) (s : State) → 0 < sum args → Reach args s → Invariant (sum args) s
Reach-Invariant args _ pos begin = record {
  fits = tt;
  counted = omega arith;
  exclusive = refl;
  at = (omega arith, refl);
}
Reach-Invariant args _ pos (next {s} r (Step.of_producer pre post p e step)) =
    ProducerStep-Invariant pre post p e step (Reach-Invariant args s pos r)
Reach-Invariant args _ pos (next {s} r (Step.of_main step)) =
    MainStep-Invariant s.main pos refl step (Reach-Invariant args s pos r)
Reach-Invariant args _ pos (spurious {s} r e) =
    let i = Reach-Invariant args s pos r in
    let (x, (t, c, w)) = seen s e i in
    record { fits = i.fits; counted = i.counted; exclusive = x; at = (t, c) }

-- The total never exceeds what is asked for.
total_le : (n : ℕ) (m : Main) (s : State) → At n m s → s.tot_required ≤ n
total_le n (creating args) s a = omega (arith, a.0)
total_le n locking s a = omega (arith, a.0)
total_le n checking s a = omega (arith, a.0)
total_le n asleep s a = omega (arith, a.0)
total_le n woken s a = omega (arith, a.0)
total_le n consuming s a = omega (arith, a.0)
total_le n deciding s a = omega (arith, a.0)
total_le n exited s a = omega (arith, a.0)

-- Some thread takes a step.
abbrev pub Moves : State → Type 0
Moves s = (s' : State) × Step s s'

module _ (s : State) (small : s.num_consumed + s.avail + tally units s.producers ≤ int_max) where
  producer_moves :
      (pre post : List Producer) (p : Phase) (k : ℕ)
      → s.producers ≡ pre ++ producer p k ∷ post
      → Fits (producer p k)
      → 0 < will_signal (producer p k)
      → (p ≡ idle → s.mutex ≡ false)
      → Moves s
  producer_moves pre post idle zero e f more free = absurd (omega arith)
  producer_moves pre post idle (suc k) e f more free =
      (_, Step.of_producer pre post (producer idle (suc k)) e (ProducerStep.lock k (free refl)))
  producer_moves pre post locked zero e f more free = let g : 0 < 0 = f refl in absurd (omega arith)
  producer_moves pre post locked (suc k) e f more free =
      let unit : suc k ≤ tally units s.producers =
        omega (arith, ap (tally units) e, tally-at units pre (producer locked (suc k)) post) in
      (
        _,
        Step.of_producer pre post (producer locked (suc k)) e
            (ProducerStep.add k (omega (arith, unit, small))),
      )
  producer_moves pre post added k e f more free =
      (_, Step.of_producer pre post (producer added k) e (ProducerStep.unlock k))
  producer_moves pre post unlocked k e f more free =
      (_, Step.of_producer pre post (producer unlocked k) e (ProducerStep.signal k))

  Fits-at :
      (pre post : List Producer) (p : Producer)
      → s.producers ≡ pre ++ p ∷ post
      → All Fits s.producers
      → Fits p
  Fits-at pre post p e fits = All-at Fits pre p post (subst (All Fits) e fits)

  holds-going :
      (p : Phase) (k : ℕ) → 0 < holds (producer p k) → (p ≢ idle) × (0 < will_signal (producer p k))
  holds-going idle k h = absurd (omega arith)
  holds-going locked k h = ((λ e. cc), omega arith)
  holds-going added k h = ((λ e. cc), omega arith)
  holds-going unlocked k h = absurd (omega arith)

  -- The producer with the mutex goes on.
  holder_moves : All Fits s.producers → 0 < tally holds s.producers → Moves s
  holder_moves fits held =
      let (pre, p, post, e, h) = tally-Place holds s.producers held in
      let (busy, more) = holds-going p.phase p.units h in
      producer_moves pre post p.phase p.units e (Fits-at pre post p e fits) more
        (λ k. absurd (busy k))

  main_moves : {m : Main} {s' : State} → s.main ≡ m → MainStep s m s' → Moves s
  main_moves {m} {s'} e step = (s', Step.of_main (subst (λ k. MainStep s k s') (sym e) step))

  -- With the mutex free one step is possible, else the holder goes on.
  free_or_held :
      All Fits s.producers
      → tally holds s.producers + 0 ≡ taken s.mutex
      → (s.mutex ≡ false → Moves s)
      → Moves s
  free_or_held fits x free = elim (Bool-cases s.mutex) [
    | inl t ↦
        let y : tally holds s.producers + 0 ≡ 1 = x ∙ ap taken t in
        holder_moves fits (omega (arith, y))
    | inr f ↦ free f
  ]

  -- While the main thread waits with the mutex free, a producer goes on.
  signaller_moves :
      All Fits s.producers → 0 < tally will_signal s.producers → s.mutex ≡ false → Moves s
  signaller_moves fits more free =
      let (pre, p, post, e, h) = tally-Place will_signal s.producers more in
      producer_moves pre post p.phase p.units e (Fits-at pre post p e fits) h (λ k. free)

  moves_on :
      {n : ℕ} (m : Main) → n ≤ int_max → s.main ≡ m → Invariant n s → (s.main ≡ exited) ⊎ Moves s
  moves_on (creating []) fit e i = inr (main_moves e MainStep.created)
  moves_on (creating (cnt ∷ args)) fit e i =
      let (x, (t, c)) = seen s e i in
      inr (main_moves e (MainStep.create cnt args (omega (arith, t, fit))))
  moves_on locking fit e i =
      inr (free_or_held i.fits (seen s e i).0 (λ free. main_moves e (MainStep.lock free)))
  moves_on checking fit e i = elim (zero_or_more s.avail) [
    | inl h ↦ inr (main_moves e (MainStep.wait h))
    | inr h ↦ inr (main_moves e (MainStep.take h))
  ]
  moves_on asleep fit e i =
      let (x, (t, c, w)) = seen s e i in inr (free_or_held i.fits x (signaller_moves i.fits w))
  moves_on woken fit e i =
      inr (free_or_held i.fits (seen s e i).0 (λ free. main_moves e (MainStep.relock free)))
  moves_on consuming fit e i = elim (zero_or_more s.avail) [
    | inl h ↦ inr (main_moves e (MainStep.unlock h))
    | inr h ↦ inr (main_moves e (MainStep.consume h (omega (arith, small, h))))
  ]
  moves_on deciding fit e i = elim (Bool-cases s.done) [
    | inl h ↦ inr (main_moves e (MainStep.finish h))
    | inr h ↦ inr (main_moves e (MainStep.repeat h))
  ]
  moves_on exited fit e i = inl e

-- If at least one unit is asked for and their sum is an int, and no argument is negative: however
-- the threads are interleaved, and whenever pthread_cond_wait(3) returns without a signal, units
-- consumed, units available and units to come add up to those asked for; at most one thread has
-- the mutex; while the main thread waits, a signal is to come. And no state is stuck, nor does a
-- counter overflow: a thread can take a step, or the main thread is at its end and has consumed
-- all units.
pub Reach-Consumed :
    (args : List ℕ) (s : State)
    → 0 < sum args
    → sum args ≤ int_max
    → Reach args s
    → Invariant (sum args) s × (((s.main ≡ exited) × (s.num_consumed ≡ sum args)) ⊎ Moves s)
Reach-Consumed args s pos fit r =
    let i = Reach-Invariant args s pos r in
    let small : s.num_consumed + s.avail + tally units s.producers ≤ int_max =
      omega (arith, i.counted, total_le (sum args) s.main s i.at, fit) in
    (
      i,
      elim (moves_on s small s.main fit refl i) [
        | inl e ↦ let (x, (t, c)) = seen s e i in inl (e, omega (arith, i.counted, t, c))
        | inr moves ↦ inr moves
      ],
    )
