-- ===== src/Multijoin/Invariant.antt =====
-- What holds in every state of thread_multijoin.cpp.
use bookcode_linux.Common.{
  ℕ, ◌+◌, ◌≤◌, ◌<◌, ◌≡◌, ◌≢◌, refl, Bool, true, false, List, ◌∷◌, ◌++◌, length, All, arith, subst,
  sym, ◌∙◌,
}
use bookcode_linux.Common.Tally.{tally, tally-change, length-change}
use bookcode_linux.Multijoin.{
  Tstate, alive, terminated, joined, Phase, working, locked, marked, unlocked, ended, Thread, Main,
  creating, testing, checking, asleep, woken, scanning, exited, State, wake,
}

abbrev pub is_terminated : Thread → ℕ
is_terminated t = elim t.tstate [ alive ↦ 0 | terminated ↦ 1 | joined ↦ 0 ]

abbrev pub is_unjoined : Thread → ℕ
is_unjoined t = elim t.tstate [ alive ↦ 1 | terminated ↦ 1 | joined ↦ 0 ]

abbrev pub holds : Thread → ℕ
holds t = elim t.phase [ working ↦ 0 | locked ↦ 1 | marked ↦ 1 | unlocked ↦ 0 | ended ↦ 0 ]

-- The signal is still to come.
abbrev pub will_signal : Thread → ℕ
will_signal t = elim t.phase [ working ↦ 1 | locked ↦ 1 | marked ↦ 1 | unlocked ↦ 1 | ended ↦ 0 ]

abbrev pub main_holds : Main → ℕ
main_holds (creating k) = 0
main_holds testing = 0
main_holds checking = 1
main_holds asleep = 0
main_holds woken = 0
main_holds (scanning i) = 1
main_holds exited = 0

abbrev pub taken : Bool → ℕ
taken true = 1
taken false = 0

-- The state that the main thread sees fits what the thread has done.
abbrev pub Fits : Phase → Tstate → Type 0
Fits working st = st ≡ alive
Fits locked st = st ≡ alive
Fits marked st = st ≡ terminated
Fits unlocked st = st ≡ terminated
Fits ended st = st ≢ alive

-- What holds where the main thread stands; `n` threads are asked for.
abbrev pub At : ℕ → Main → List Thread → ℕ → Type 0
At n (creating k) ts live = (length ts + k ≡ n) × (tally is_unjoined ts ≡ length ts)
At n testing ts live = (length ts ≡ n) × (tally is_unjoined ts ≡ live)
At n checking ts live = (length ts ≡ n) × (tally is_unjoined ts ≡ live) × (0 < live)
At n asleep ts live =
    (length ts ≡ n) × (tally is_unjoined ts ≡ live) × (0 < live) × (0 < tally will_signal ts)
At n woken ts live = (length ts ≡ n) × (tally is_unjoined ts ≡ live) × (0 < live)
At n (scanning i) ts live = (length ts ≡ n) × (tally is_unjoined ts ≡ live) × (i ≤ length ts)
At n exited ts live = (length ts ≡ n) × (tally is_unjoined ts ≡ live) × (live ≡ 0)

pub record Invariant (n : ℕ) (s : State) : Type 0 where
  pub fits : All (λ t. Fits t.phase t.tstate) s.threads
  pub counted : tally is_terminated s.threads ≡ s.num_unjoined
  pub exclusive : tally holds s.threads + main_holds s.main ≡ taken s.mutex
  pub at : At n s.main s.threads s.num_live

-- A thread changes that is counted as before.
module _ (n : ℕ) (pre post : List Thread) (x y : Thread)
    (same : is_unjoined x ≡ is_unjoined y) where
  pub same_length : length (pre ++ y ∷ post) ≡ length (pre ++ x ∷ post)
  same_length = length-change pre y x post

  pub same_unjoined : tally is_unjoined (pre ++ y ∷ post) ≡ tally is_unjoined (pre ++ x ∷ post)
  same_unjoined = omega (arith, tally-change is_unjoined pre x y post, same)

  pub At-change :
      (m : Main) (live : ℕ)
      → will_signal x ≡ will_signal y
      → At n m (pre ++ x ∷ post) live
      → At n m (pre ++ y ∷ post) live
  At-change (creating k) live w (l, u) =
      (omega (arith, l, same_length), same_unjoined ∙ u ∙ sym same_length)
  At-change testing live w (l, u) = (same_length ∙ l, same_unjoined ∙ u)
  At-change checking live w (l, u, p) = (same_length ∙ l, same_unjoined ∙ u, p)
  At-change asleep live w (l, u, p, q) = (
    same_length ∙ l,
    same_unjoined ∙ u,
    p,
    omega (arith, tally-change will_signal pre x y post, w, q),
  )
  At-change woken live w (l, u, p) = (same_length ∙ l, same_unjoined ∙ u, p)
  At-change (scanning i) live w (l, u, p) =
      (same_length ∙ l, same_unjoined ∙ u, omega (arith, p, same_length))
  At-change exited live w (l, u, p) = (same_length ∙ l, same_unjoined ∙ u, p)

  pub At-wake :
      (m : Main) (live : ℕ) → At n m (pre ++ x ∷ post) live → At n (wake m) (pre ++ y ∷ post) live
  At-wake (creating k) live (l, u) =
      (omega (arith, l, same_length), same_unjoined ∙ u ∙ sym same_length)
  At-wake testing live (l, u) = (same_length ∙ l, same_unjoined ∙ u)
  At-wake checking live (l, u, p) = (same_length ∙ l, same_unjoined ∙ u, p)
  At-wake asleep live (l, u, p, q) = (same_length ∙ l, same_unjoined ∙ u, p)
  At-wake woken live (l, u, p) = (same_length ∙ l, same_unjoined ∙ u, p)
  At-wake (scanning i) live (l, u, p) =
      (same_length ∙ l, same_unjoined ∙ u, omega (arith, p, same_length))
  At-wake exited live (l, u, p) = (same_length ∙ l, same_unjoined ∙ u, p)

pub wake-holds : (m : Main) → main_holds (wake m) ≡ main_holds m
wake-holds (creating k) = refl
wake-holds testing = refl
wake-holds checking = refl
wake-holds asleep = refl
wake-holds woken = refl
wake-holds (scanning i) = refl
wake-holds exited = refl

-- What holds of the list, with one thread named.
abbrev pub Named : ℕ → State → List Thread → Type 0
Named n s ts =
    All (λ t. Fits t.phase t.tstate) ts
    × (tally is_terminated ts ≡ s.num_unjoined)
    × (tally holds ts + main_holds s.main ≡ taken s.mutex)
    × At n s.main ts s.num_live

pub named : {n : ℕ} (s : State) {ts : List Thread} → s.threads ≡ ts → Invariant n s → Named n s ts
named {n} s e i = subst (Named n s) e (i.fits, i.counted, i.exclusive, i.at)

-- The part that depends on where the main thread stands.
abbrev pub Seen : ℕ → State → Main → Type 0
Seen n s m = (tally holds s.threads + main_holds m ≡ taken s.mutex) × At n m s.threads s.num_live

pub seen : {n : ℕ} (s : State) {m : Main} → s.main ≡ m → Invariant n s → Seen n s m
seen {n} s e i = subst (Seen n s) e (i.exclusive, i.at)
