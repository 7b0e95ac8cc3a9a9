-- ===== src/Condvar/Steps.antt =====
-- The steps of prod_condvar.cpp keep the invariant.
use bookcode_linux.Common.{
  ℕ, zero, suc, ◌+◌, ◌<◌, ◌≡◌, ◌≢◌, refl, inl, inr, Bool, true, false, List, [], ◌∷◌, ◌++◌, arith,
  ap, sym, ◌∙◌, leb,
}
use bookcode_linux.Common.Tally.{tally, tally-append, tally-change, All-change}
use bookcode_linux.Condvar.{
  Phase, idle, locked, added, unlocked, Producer, producer, Main, State, ProducerStep, MainStep,
}
use bookcode_linux.Common.Tally.{All-snoc, tally-Place, tally-at}
use bookcode_linux.Condvar.Invariant.{
  units, more, holds, will_signal, main_holds, taken, Fits, Invariant, At-wake, At-change,
  wake-holds, named, seen,
}

free_mutex : (b : Bool) (k : ℕ) → k + 1 ≡ taken b → k + 0 ≡ 0
free_mutex true k h = omega (arith, h)
free_mutex false k h = omega (arith, h)

released : (b : Bool) (p q m : ℕ) → p + m ≡ taken b → q + 1 ≡ p + 0 → q + m ≡ 0
released true p q m h k = omega (arith, h, k)
released false p q m h k = omega (arith, h, k)

no_lock : {p : Phase} → p ≢ locked → {P : Type 0} → p ≡ locked → P
no_lock ne e = absurd (ne e)

pub ProducerStep-Invariant :
    {n : ℕ} {s s' : State} (pre post : List Producer) (p : Producer)
    → s.producers ≡ pre ++ p ∷ post
    → ProducerStep s pre post p s'
    → Invariant n s
    → Invariant n s'
ProducerStep-Invariant {n} {s} {s'} pre post _ e (ProducerStep.lock k free) i =
    let (f, c, x) = named s e i in
    record {
      fits =
          All-change Fits pre (producer idle (suc k)) (producer locked (suc k)) post
            (λ h. λ g. omega arith) f;
      counted =
          omega (
            arith,
            c,
            tally-change units pre (producer idle (suc k)) (producer locked (suc k)) post,
          );
      exclusive =
          let y : tally holds (pre ++ producer idle (suc k) ∷ post) + main_holds s.main ≡ 0 =
            x ∙ ap taken free in
          omega (
            arith,
            y,
            tally-change holds pre (producer idle (suc k)) (producer locked (suc k)) post,
          );
      at =
          At-change n s s' refl refl refl (omega arith)
            (omega (
              arith,
              ap (tally will_signal) e,
              tally-change will_signal pre (producer idle (suc k)) (producer locked (suc k)) post,
            ))
            s.main i.at;
    }
ProducerStep-Invariant {n} {s} {s'} pre post _ e (ProducerStep.add k small) i =
    let (f, c, x) = named s e i in
    record {
      fits =
          All-change Fits pre (producer locked (suc k)) (producer added k) post
            (λ h. λ g. absurd cc) f;
      counted =
          omega
            (arith, c, tally-change units pre (producer locked (suc k)) (producer added k) post);
      exclusive =
          omega
            (arith, x, tally-change holds pre (producer locked (suc k)) (producer added k) post);
      at =
          At-change n s s' refl refl refl (omega arith)
            (omega (
              arith,
              ap (tally will_signal) e,
              tally-change will_signal pre (producer locked (suc k)) (producer added k) post,
            ))
            s.main i.at;
    }
ProducerStep-Invariant {n} {s} {s'} pre post _ e (ProducerStep.unlock k) i =
    let (f, c, x) = named s e i in
    record {
      fits =
          All-change Fits pre (producer added k) (producer unlocked k) post (λ h. λ g. absurd cc) f;
      counted =
          omega (arith, c, tally-change units pre (producer added k) (producer unlocked k) post);
      exclusive =
          released s.mutex (tally holds (pre ++ producer added k ∷ post))
            (tally holds (pre ++ producer unlocked k ∷ post)) (main_holds s.main) x
            (tally-change holds pre (producer added k) (producer unlocked k) post);
      at =
          At-change n s s' refl refl refl (omega arith)
            (omega (
              arith,
              ap (tally will_signal) e,
              tally-change will_signal pre (producer added k) (producer unlocked k) post,
            ))
            s.main i.at;
    }
ProducerStep-Invariant {n} {s} {s'} pre post _ e (ProducerStep.signal k) i =
    let (f, c, x) = named s e i in
    record {
      fits =
          All-change Fits pre (producer unlocked k) (producer idle k) post (λ h. λ g. absurd cc) f;
      counted =
          omega (arith, c, tally-change units pre (producer unlocked k) (producer idle k) post);
      exclusive = omega (
        arith,
        x,
        wake-holds s.main,
        tally-change holds pre (producer unlocked k) (producer idle k) post,
      );
      at = At-wake n s s' refl refl refl (omega arith) s.main i.at;
    }

has_more : (k : ℕ) → 0 < k → 0 < more k
has_more zero h = absurd (omega arith)
has_more (suc k) h = omega arith

unit_signals : (p : Phase) (k : ℕ) → 0 < k → 0 < will_signal (producer p k)
unit_signals idle k h = has_more k h
unit_signals locked k h = omega arith
unit_signals added k h = omega arith
unit_signals unlocked k h = omega arith

-- With units to come a signal is to come.
pub waits_for_one : (ps : List Producer) → 0 < tally units ps → 0 < tally will_signal ps
waits_for_one ps h =
    let (pre, p, post, e, g) = tally-Place units ps h in
    let w : 0 < will_signal p = unit_signals p.phase p.units g in
    omega (arith, w, ap (tally will_signal) e, tally-at will_signal pre p post)

pub MainStep-Invariant :
    {n : ℕ} {s s' : State} (m : Main)
    → 0 < n
    → s.main ≡ m
    → MainStep s m s'
    → Invariant n s
    → Invariant n s'
MainStep-Invariant {n} {s} _ pos e (MainStep.create cnt args small) i =
    let (x, (t, c)) = seen s e i in
    record {
      fits = All-snoc Fits s.producers (producer idle cnt) i.fits (λ g. absurd cc);
      counted = omega (arith, i.counted, tally-append units s.producers (producer idle cnt ∷ []));
      exclusive = omega (arith, x, tally-append holds s.producers (producer idle cnt ∷ []));
      at = (omega (arith, t), c);
    }
MainStep-Invariant {n} {s} _ pos e MainStep.created i =
    let (x, (t, c)) = seen s e i in
    record {
      fits = i.fits;
      counted = omega (arith, i.counted, c);
      exclusive = x;
      at = (omega (arith, t), pos);
    }
MainStep-Invariant {n} {s} _ pos e (MainStep.lock free) i =
    let (x, a) = seen s e i in
    let y : tally holds s.producers + 0 ≡ 0 = x ∙ ap taken free in
    record { fits = i.fits; counted = i.counted; exclusive = omega (arith, y); at = a }
MainStep-Invariant {n} {s} _ pos e (MainStep.relock free) i =
    let (x, a) = seen s e i in
    let y : tally holds s.producers + 0 ≡ 0 = x ∙ ap taken free in
    record { fits = i.fits; counted = i.counted; exclusive = omega (arith, y); at = a }
MainStep-Invariant {n} {s} _ pos e (MainStep.wait none_left) i =
    let (x, (t, c)) = seen s e i in
    record {
      fits = i.fits;
      counted = i.counted;
      exclusive = free_mutex s.mutex (tally holds s.producers) x;
      at = (t, c, waits_for_one s.producers (omega (arith, i.counted, none_left, t, c)));
    }
MainStep-Invariant {n} {s} _ pos e (MainStep.take some_left) i =
    let (x, (t, c)) = seen s e i in
    record { fits = i.fits; counted = i.counted; exclusive = x; at = (t, inl some_left) }
MainStep-Invariant {n} {s} _ pos e (MainStep.consume some_left small) i =
    let (x, (t, d)) = seen s e i in
    record {
      fits = i.fits;
      counted = omega (arith, i.counted, some_left);
      exclusive = x;
      at = (t, inr (ap (λ k. leb k (s.num_consumed + 1)) t));
    }
MainStep-Invariant {n} {s} _ pos e (MainStep.unlock none_left) i =
    let (x, (t, d)) = seen s e i in
    record {
      fits = i.fits;
      counted = i.counted;
      exclusive = free_mutex s.mutex (tally holds s.producers) x;
      at = (t, elim d [ inl some_left ↦ absurd (omega (arith, some_left, none_left)) | inr h ↦ h ]);
    }
MainStep-Invariant {n} {s} _ pos e (MainStep.finish h) i =
    let (x, (t, d)) = seen s e i in
    let all : leb n s.num_consumed ≡ true = sym d ∙ h in
    record { fits = i.fits; counted = i.counted; exclusive = x; at = (t, ground (arith, all)) }
MainStep-Invariant {n} {s} _ pos e (MainStep.repeat h) i =
    let (x, (t, d)) = seen s e i in
    let few : leb n s.num_consumed ≡ false = sym d ∙ h in
    record { fits = i.fits; counted = i.counted; exclusive = x; at = (t, ground (arith, few)) }
