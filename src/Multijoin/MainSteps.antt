-- ===== src/Multijoin/MainSteps.antt =====
-- The steps of the main thread of thread_multijoin.cpp keep the invariant.
use bookcode_linux.Common.{
  ℕ, suc, ◌+◌, ◌-◌, ◌≤◌, ◌<◌, ◌≡◌, refl, Bool, true, false, List, [], ◌∷◌, ◌++◌, length, All, arith,
  ap, subst, ◌∙◌, length-append,
}
use bookcode_linux.Common.Tally.{
  tally, tally-append, tally-change, All-change, All-snoc, length-change,
}
use bookcode_linux.Multijoin.{
  Tstate, alive, terminated, joined, Phase, working, locked, marked, unlocked, ended, Thread,
  thread, Main, creating, scanning, State, MainStep,
}
use bookcode_linux.Multijoin.Invariant.{
  is_terminated, is_unjoined, holds, will_signal, main_holds, taken, Fits, At, Invariant, seen,
  named,
}

tally_le :
    (f g h : Thread → ℕ) (P : Thread → Type 0) (ts : List Thread)
    → ((t : Thread) → P t → f t ≤ g t + h t)
    → All P ts
    → tally f ts ≤ tally g ts + tally h ts
tally_le f g h P [] le all = omega arith
tally_le f g h P (t ∷ ts) le (p, ps) = omega (arith, le t p, tally_le f g h P ts le ps)

-- A thread that is not joined has set its state, or will signal.
unjoined_le :
    (p : Phase) (st : Tstate)
    → Fits p st
    → is_unjoined (thread p st) ≤ is_terminated (thread p st) + will_signal (thread p st)
unjoined_le p joined f = omega arith
unjoined_le p terminated f = omega arith
unjoined_le working alive f = omega arith
unjoined_le locked alive f = omega arith
unjoined_le marked alive f = omega arith
unjoined_le unlocked alive f = omega arith
unjoined_le ended alive f = absurd (f refl)

length_snoc : (ts : List Thread) (t : Thread) → length (ts ++ t ∷ []) ≡ length ts + 1
length_snoc ts t = length-append ts (t ∷ [])

-- With nothing to join and a thread not joined, a signal is to come.
waits_for_one :
    (ts : List Thread)
    → All (λ t. Fits t.phase t.tstate) ts
    → tally is_terminated ts ≡ 0
    → 0 < tally is_unjoined ts
    → 0 < tally will_signal ts
waits_for_one ts fits none_terminated more = omega (
  arith,
  none_terminated,
  more,
  tally_le is_unjoined is_terminated will_signal (λ t. Fits t.phase t.tstate) ts
      (λ t. unjoined_le t.phase t.tstate) fits,
)

free_mutex : (b : Bool) (k : ℕ) → k + 1 ≡ taken b → k + 0 ≡ 0
free_mutex true k h = omega (arith, h)
free_mutex false k h = omega (arith, h)

MainStep-create :
    {n : ℕ} {s : State} (k : ℕ)
    → s.main ≡ creating (suc k)
    → Invariant n s
    → Invariant n (record s { main = creating k; threads = s.threads ++ thread working alive ∷ [] })
MainStep-create {n} {s} k e i =
    let (x, (l, u)) = seen s e i in
    record {
      fits = All-snoc _ s.threads (thread working alive) i.fits refl;
      counted =
          omega
            (arith, i.counted, tally-append is_terminated s.threads (thread working alive ∷ []));
      exclusive = omega (arith, x, tally-append holds s.threads (thread working alive ∷ []));
      at = (
        omega (arith, l, length_snoc s.threads (thread working alive)),
        omega (
          arith,
          u,
          length_snoc s.threads (thread working alive),
          tally-append is_unjoined s.threads (thread working alive ∷ []),
        ),
      );
    }

MainStep-join :
    {n : ℕ} {s : State} (pre post : List Thread)
    → s.main ≡ scanning (length pre)
    → s.threads ≡ pre ++ thread ended terminated ∷ post
    → Invariant n s
    → Invariant n (record s {
      main = scanning (length pre + 1);
      threads = pre ++ thread ended joined ∷ post;
      num_live = s.num_live - 1;
      num_unjoined = s.num_unjoined - 1;
    })
MainStep-join {n} {s} pre post e h i =
    let (f, c, x, a) = named s h i in
    let (y, (l, u, le)) =
      subst
        (λ m.
          (tally holds (pre ++ thread ended terminated ∷ post) + main_holds m ≡ taken s.mutex)
          × At n m (pre ++ thread ended terminated ∷ post) s.num_live)
        e (x, a) in
    record {
      fits =
          All-change _ pre (thread ended terminated) (thread ended joined) post
            (λ k. λ g. absurd cc) f;
      counted = omega (
        arith,
        c,
        tally-change is_terminated pre (thread ended terminated) (thread ended joined) post,
      );
      exclusive =
          omega
            (arith, y, tally-change holds pre (thread ended terminated) (thread ended joined) post);
      at = (
        length-change pre (thread ended joined) (thread ended terminated) post ∙ l,
        omega (
          arith,
          u,
          tally-change is_unjoined pre (thread ended terminated) (thread ended joined) post,
        ),
        omega (arith, length-append pre (thread ended joined ∷ post)),
      );
    }

pub MainStep-Invariant :
    {n : ℕ} {s s' : State} (m : Main)
    → s.main ≡ m
    → MainStep s m s'
    → Invariant n s
    → Invariant n s'
MainStep-Invariant _ e (MainStep.create k) i = MainStep-create k e i
MainStep-Invariant {n} {s} _ e MainStep.created i =
    let (x, (l, u)) = seen s e i in
    record { fits = i.fits; counted = i.counted; exclusive = x; at = (omega (arith, l), u) }
MainStep-Invariant {n} {s} _ e (MainStep.go_on more free) i =
    let (x, (l, u)) = seen s e i in
    record {
      fits = i.fits;
      counted = i.counted;
      exclusive = let y : tally holds s.threads + 0 ≡ 0 = x ∙ ap taken free in omega (arith, y);
      at = (l, u, more);
    }
MainStep-Invariant {n} {s} _ e (MainStep.leave h) i =
    let (x, (l, u)) = seen s e i in
    record { fits = i.fits; counted = i.counted; exclusive = x; at = (l, u, h) }
MainStep-Invariant {n} {s} _ e (MainStep.wait h) i =
    let (x, (l, u, p)) = seen s e i in
    record {
      fits = i.fits;
      counted = i.counted;
      exclusive = free_mutex s.mutex (tally holds s.threads) x;
      at = (l, u, p, waits_for_one s.threads i.fits (i.counted ∙ h) (omega (arith, u, p)));
    }
MainStep-Invariant {n} {s} _ e (MainStep.scan h) i =
    let (x, (l, u, p)) = seen s e i in
    record { fits = i.fits; counted = i.counted; exclusive = x; at = (l, u, omega arith) }
MainStep-Invariant {n} {s} _ e (MainStep.relock free) i =
    let (x, (l, u, p)) = seen s e i in
    record {
      fits = i.fits;
      counted = i.counted;
      exclusive = let y : tally holds s.threads + 0 ≡ 0 = x ∙ ap taken free in omega (arith, y);
      at = (l, u, p);
    }
MainStep-Invariant {n} {s} _ e (MainStep.skip pre post t h h') i =
    let (x, (l, u, p)) = seen s e i in
    record {
      fits = i.fits;
      counted = i.counted;
      exclusive = x;
      at = (l, u, omega (arith, ap length h, length-append pre (t ∷ post)));
    }
MainStep-Invariant _ e (MainStep.join pre post h) i = MainStep-join pre post e h i
MainStep-Invariant {n} {s} _ e MainStep.scanned i =
    let (x, (l, u, p)) = seen s e i in
    record {
      fits = i.fits;
      counted = i.counted;
      exclusive = free_mutex s.mutex (tally holds s.threads) x;
      at = (l, u);
    }
