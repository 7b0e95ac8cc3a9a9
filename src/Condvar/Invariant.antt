-- ===== src/Condvar/Invariant.antt =====
-- What holds in every state of prod_condvar.cpp.
use bookcode_linux.Common.{
  ℕ, zero, suc, ◌+◌, ◌≤◌, ◌<◌, ◌≡◌, refl, inl, inr, ◌⊎◌, Bool, true, false, List, [], ◌∷◌, All,
  arith, ap, subst, sym, ◌∙◌, leb,
}
use bookcode_linux.Common.Tally.{tally}
use bookcode_linux.Condvar.{
  idle, locked, added, unlocked, Producer, Main, creating, locking, checking, asleep, woken,
  consuming, deciding, exited, State, wake,
}

abbrev pub units : Producer → ℕ
units p = p.units

abbrev pub more : ℕ → ℕ
more zero = 0
more (suc k) = 1

abbrev pub holds : Producer → ℕ
holds p = elim p.phase [ idle ↦ 0 | locked ↦ 1 | added ↦ 1 | unlocked ↦ 0 ]

-- A signal is still to come.
abbrev pub will_signal : Producer → ℕ
will_signal p = elim p.phase [ idle ↦ more p.units | locked ↦ 1 | added ↦ 1 | unlocked ↦ 1 ]

abbrev pub main_holds : Main → ℕ
main_holds (creating args) = 0
main_holds locking = 0
main_holds checking = 1
main_holds asleep = 0
main_holds woken = 0
main_holds consuming = 1
main_holds deciding = 0
main_holds exited = 0

abbrev pub taken : Bool → ℕ
taken true = 1
taken false = 0

-- A producer that adds a unit has one.
abbrev pub Fits : Producer → Type 0
Fits p = p.phase ≡ locked → 0 < p.units

abbrev pub sum : List ℕ → ℕ
sum [] = 0
sum (n ∷ ns) = n + sum ns

-- What holds where the main thread stands; `n` units are asked for.
abbrev pub At : ℕ → Main → State → Type 0
At n (creating args) s = (s.tot_required + sum args ≡ n) × (s.num_consumed ≡ 0)
At n locking s = (s.tot_required ≡ n) × (s.num_consumed < n)
At n checking s = (s.tot_required ≡ n) × (s.num_consumed < n)
At n asleep s = (s.tot_required ≡ n) × (s.num_consumed < n) × (0 < tally will_signal s.producers)
At n woken s = (s.tot_required ≡ n) × (s.num_consumed < n)
At n consuming s = (s.tot_required ≡ n) × ((0 < s.avail) ⊎ (s.done ≡ leb n s.num_consumed))
At n deciding s = (s.tot_required ≡ n) × (s.done ≡ leb n s.num_consumed)
At n exited s = (s.tot_required ≡ n) × (n ≤ s.num_consumed)

pub record Invariant (n : ℕ) (s : State) : Type 0 where
  pub fits : All Fits s.producers
  pub counted : s.num_consumed + s.avail + tally units s.producers ≡ s.tot_required
  pub exclusive : tally holds s.producers + main_holds s.main ≡ taken s.mutex
  pub at : At n s.main s

pub wake-holds : (m : Main) → main_holds (wake m) ≡ main_holds m
wake-holds (creating args) = refl
wake-holds locking = refl
wake-holds checking = refl
wake-holds asleep = refl
wake-holds woken = refl
wake-holds consuming = refl
wake-holds deciding = refl
wake-holds exited = refl

-- A producer changes; the units available do not become fewer.
module _ (n : ℕ) (s s' : State) (total : s'.tot_required ≡ s.tot_required)
    (consumed : s'.num_consumed ≡ s.num_consumed) (done : s'.done ≡ s.done)
    (avail : s.avail ≤ s'.avail) where
  pub At-wake : (m : Main) → At n m s → At n (wake m) s'
  At-wake (creating args) (t, c) = (omega (arith, t, total), omega (arith, c, consumed))
  At-wake locking (t, c) = (total ∙ t, omega (arith, c, consumed))
  At-wake checking (t, c) = (total ∙ t, omega (arith, c, consumed))
  At-wake asleep (t, c, w) = (total ∙ t, omega (arith, c, consumed))
  At-wake woken (t, c) = (total ∙ t, omega (arith, c, consumed))
  At-wake consuming (t, inl a) = (total ∙ t, inl (omega (arith, a, avail)))
  At-wake consuming (t, inr d) = (total ∙ t, inr (done ∙ d ∙ ap (leb n) (sym consumed)))
  At-wake deciding (t, d) = (total ∙ t, done ∙ d ∙ ap (leb n) (sym consumed))
  At-wake exited (t, c) = (total ∙ t, omega (arith, c, consumed))

  pub At-change :
      tally will_signal s.producers ≤ tally will_signal s'.producers
      → (m : Main) → At n m s
      → At n m s'
  At-change lasts (creating args) a = At-wake (creating args) a
  At-change lasts locking a = At-wake locking a
  At-change lasts checking a = At-wake checking a
  At-change lasts asleep (t, c, w) =
      (total ∙ t, omega (arith, c, consumed), omega (arith, w, lasts))
  At-change lasts woken a = At-wake woken a
  At-change lasts consuming a = At-wake consuming a
  At-change lasts deciding a = At-wake deciding a
  At-change lasts exited a = At-wake exited a

-- What holds of the list, with one producer named.
abbrev pub Named : State → List Producer → Type 0
Named s ps =
    All Fits ps
    × (s.num_consumed + s.avail + tally units ps ≡ s.tot_required)
    × (tally holds ps + main_holds s.main ≡ taken s.mutex)

pub named : {n : ℕ} (s : State) {ps : List Producer} → s.producers ≡ ps → Invariant n s → Named s ps
named s e i = subst (Named s) e (i.fits, i.counted, i.exclusive)

-- The part that depends on where the main thread stands.
abbrev pub Seen : ℕ → State → Main → Type 0
Seen n s m = (tally holds s.producers + main_holds m ≡ taken s.mutex) × At n m s

pub seen : {n : ℕ} (s : State) {m : Main} → s.main ≡ m → Invariant n s → Seen n s m
seen {n} s e i = subst (Seen n s) e (i.exclusive, i.at)
