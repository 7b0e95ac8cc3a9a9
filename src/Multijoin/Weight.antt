-- ===== src/Multijoin/Weight.antt =====
-- The weight of a state of thread_multijoin.cpp, and how the main thread's part of it changes.
use bookcode_linux.Common.{
  ℕ, zero, suc, ◌+◌, ◌-◌, ◌*◌, ◌≤◌, ◌<◌, ◌≡◌, ◌≢◌, refl, List, [], ◌∷◌, ◌++◌, length, drop, arith,
  ap, sym, ◌∙◌, length-append, ap₂, append_assoc, append-nil,
}
use bookcode_linux.Common.Tally.{tally, tally-append, tally-change}
use bookcode_linux.Multijoin.{
  Tstate, alive, terminated, joined, working, locked, marked, unlocked, ended, Thread, thread, Main,
  creating, testing, checking, asleep, woken, scanning, exited, State, wake,
}
use bookcode_linux.Multijoin.Invariant.{is_terminated, is_unjoined}

-- The steps that a thread has left, the signal counted thrice.
abbrev pub to_go : Thread → ℕ
to_go t = elim t.phase [ working ↦ 6 | locked ↦ 5 | marked ↦ 4 | unlocked ↦ 3 | ended ↦ 0 ]

-- What a round of the outer loop may take.
abbrev pub round : ℕ → ℕ
round n = n + 5

-- A round that has a thread to join is paid for by it.
abbrev pub paid : ℕ → ℕ → ℕ
paid n zero = 0
paid n (suc k) = round n

-- The weight of the main thread.
abbrev pub main_weight : ℕ → Main → List Thread → ℕ → ℕ
main_weight n (creating k) ts live = n * round n + 4 + 7 * k
main_weight n testing ts live = live * round n + 3
main_weight n checking ts live = live * round n + 2
main_weight n asleep ts live = live * round n + 1
main_weight n woken ts live = live * round n + 3
main_weight n (scanning i) ts live =
    live * round n + 4 + (n - i) - paid n (tally is_terminated (drop i ts))
main_weight n exited ts live = 0

abbrev pub weight : ℕ → State → ℕ
weight n s = tally to_go s.threads + main_weight n s.main s.threads s.num_live

paid_le : (n a b : ℕ) → a ≤ b → paid n a ≤ paid n b
paid_le n zero b h = omega arith
paid_le n (suc a) zero h = absurd (omega arith)
paid_le n (suc a) (suc b) h = omega arith

tally-drop :
    (i : ℕ) (pre : List Thread) (x y : Thread) (post : List Thread)
    → is_terminated x ≤ is_terminated y
    → tally is_terminated (drop i (pre ++ x ∷ post))
      ≤ tally is_terminated (drop i (pre ++ y ∷ post))
tally-drop zero pre x y post h = omega (arith, h, tally-change is_terminated pre x y post)
tally-drop (suc i) [] x y post h = omega arith
tally-drop (suc i) (z ∷ pre) x y post h = tally-drop i pre x y post h

module _ (n : ℕ) (pre post : List Thread) (x y : Thread)
    (more : is_terminated x ≤ is_terminated y) where
  pub main_weight-change :
      (m : Main) (live : ℕ)
      → main_weight n m (pre ++ y ∷ post) live ≤ main_weight n m (pre ++ x ∷ post) live
  main_weight-change (creating k) live = omega arith
  main_weight-change testing live = omega arith
  main_weight-change checking live = omega arith
  main_weight-change asleep live = omega arith
  main_weight-change woken live = omega arith
  main_weight-change (scanning i) live =
      let h : paid n (tally is_terminated (drop i (pre ++ x ∷ post)))
          ≤ paid n (tally is_terminated (drop i (pre ++ y ∷ post))) =
        paid_le n (tally is_terminated (drop i (pre ++ x ∷ post)))
          (tally is_terminated (drop i (pre ++ y ∷ post))) (tally-drop i pre x y post more) in
      omega (arith, h)
  main_weight-change exited live = omega arith

  pub main_weight-wake :
      (m : Main) (live : ℕ)
      → main_weight n (wake m) (pre ++ y ∷ post) live ≤ main_weight n m (pre ++ x ∷ post) live + 2
  main_weight-wake (creating k) live = omega arith
  main_weight-wake testing live = omega arith
  main_weight-wake checking live = omega arith
  main_weight-wake asleep live = omega arith
  main_weight-wake woken live = omega arith
  main_weight-wake (scanning i) live = omega (arith, main_weight-change (scanning i) live)
  main_weight-wake exited live = omega arith

drop-length : (pre rest : List Thread) → drop (length pre) (pre ++ rest) ≡ rest
drop-length [] rest = refl
drop-length (x ∷ pre) rest = drop-length pre rest

drop-snoc :
    (pre : List Thread) (x : Thread) (rest : List Thread)
    → drop (length pre + 1) (pre ++ x ∷ rest) ≡ rest
drop-snoc pre x rest =
    ap₂ (λ i ts. drop i ts) (sym (length-append pre (x ∷ [])))
      (sym (append_assoc pre (x ∷ []) rest))
    ∙ drop-length (pre ++ x ∷ []) rest

terminated_le : (t : Thread) → is_terminated t ≤ is_unjoined t
terminated_le t = go t.tstate
  where
    go : (st : Tstate) → is_terminated (thread t.phase st) ≤ is_unjoined (thread t.phase st)
    go alive = omega arith
    go terminated = omega arith
    go joined = omega arith

tally-terminated_le : (ts : List Thread) → tally is_terminated ts ≤ tally is_unjoined ts
tally-terminated_le [] = omega arith
tally-terminated_le (t ∷ ts) = omega (arith, terminated_le t, tally-terminated_le ts)

-- A thread of the list is not terminated, or it pays for the round.
paid-room :
    (n live k : ℕ) (pre : List Thread) (t : Thread) (post : List Thread)
    → tally is_unjoined (pre ++ t ∷ post) ≡ live
    → k ≡ tally is_terminated post
    → paid n k ≤ live * round n
paid-room n live zero pre t post u e = omega arith
paid-room n zero (suc k) pre t post u e =
    absurd (omega (arith, u, e, tally-terminated_le post, tally-append is_unjoined pre (t ∷ post)))
paid-room n (suc live) (suc k) pre t post u e = omega arith

is_terminated_zero : (t : Thread) → t.tstate ≢ terminated → is_terminated t ≡ 0
is_terminated_zero t ne = go t.tstate ne
  where
    go : (st : Tstate) → st ≢ terminated → is_terminated (thread t.phase st) ≡ 0
    go alive h = refl
    go terminated h = absurd (h refl)
    go joined h = refl

-- Below, `p` is the weight of the main thread at an index of the scan.
scan_weight :
    (n live i : ℕ) (ts rest : List Thread)
    → drop i ts ≡ rest
    → main_weight n (scanning i) ts live
      ≡ live * round n + 4 + (n - i) - paid n (tally is_terminated rest)
scan_weight n live i ts rest e =
    ap (λ r. live * round n + 4 + (n - i) - paid n (tally is_terminated r)) e

pub skip_weight :
    (n live : ℕ) (pre : List Thread) (t : Thread) (post : List Thread)
    → length (pre ++ t ∷ post) ≡ n
    → tally is_unjoined (pre ++ t ∷ post) ≡ live
    → t.tstate ≢ terminated
    → main_weight n (scanning (length pre + 1)) (pre ++ t ∷ post) live
      < main_weight n (scanning (length pre)) (pre ++ t ∷ post) live
skip_weight n live pre t post l u ne =
    let w : paid n (tally is_terminated (t ∷ post)) ≡ paid n (tally is_terminated post) =
      ap (λ k. paid n (k + tally is_terminated post)) (is_terminated_zero t ne)
      ∙ ap (paid n) (omega arith) in
    omega (
      arith,
      scan_weight n live (length pre) (pre ++ t ∷ post) (t ∷ post) (drop-length pre (t ∷ post)),
      scan_weight n live (length pre + 1) (pre ++ t ∷ post) post (drop-snoc pre t post),
      w,
      paid-room n live (tally is_terminated post) pre t post u refl,
      l,
      length-append pre (t ∷ post),
    )

pub join_weight :
    (n live : ℕ) (pre post : List Thread)
    → length (pre ++ thread ended terminated ∷ post) ≡ n
    → tally is_unjoined (pre ++ thread ended terminated ∷ post) ≡ live
    → main_weight n (scanning (length pre + 1)) (pre ++ thread ended joined ∷ post) (live - 1)
      < main_weight n (scanning (length pre)) (pre ++ thread ended terminated ∷ post) live
join_weight n zero pre post l u =
    absurd (omega (arith, u, tally-append is_unjoined pre (thread ended terminated ∷ post)))
join_weight n (suc live) pre post l u =
    let less : suc live - 1 ≡ live = omega arith in
    let one : 1 + tally is_terminated post ≡ suc (tally is_terminated post) = omega arith in
    let w : paid n (1 + tally is_terminated post) ≡ round n = ap (paid n) one in
    omega (
      arith,
      scan_weight n (suc live) (length pre) (pre ++ thread ended terminated ∷ post)
          (thread ended terminated ∷ post) (drop-length pre (thread ended terminated ∷ post)),
      scan_weight n (suc live - 1) (length pre + 1) (pre ++ thread ended joined ∷ post) post
          (drop-snoc pre (thread ended joined) post),
      ap (λ k. k * round n) less,
      w,
      l,
      length-append pre (thread ended terminated ∷ post),
    )

pub scan_start :
    (n live : ℕ) (ts : List Thread)
    → 0 < tally is_terminated ts
    → main_weight n (scanning 0) ts live < live * round n + 2
scan_start n live ts more = go (tally is_terminated ts) refl more
  where
    go :
        (k : ℕ)
        → tally is_terminated ts ≡ k
        → 0 < k
        → main_weight n (scanning 0) ts live < live * round n + 2
    go zero e h = absurd (omega arith)
    go (suc k) e h = omega (arith, ap (paid n) e)

pub scan_end :
    (n live : ℕ) (ts : List Thread)
    → live * round n + 3 < main_weight n (scanning (length ts)) ts live
scan_end n live ts =
    let e : drop (length ts) ts ≡ [] =
      ap (drop (length ts)) (sym (append-nil ts)) ∙ drop-length ts [] in
    omega (arith, scan_weight n live (length ts) ts [] e)
