-- ===== src/GoodInit/Tests.antt =====
-- A run of svsem_good_init.c with two processes.
use bookcode_linux.Common.{◌≡◌, ◌⊎◌, refl, true, [], ◌∷◌, List}
use bookcode_linux.Common.Int.{ℤ, pos, negsuc}
use bookcode_linux.GoodInit.{
  up, down, proc, ready, begins, polling, State, ProcStep, step, Reach, begin, next, created,
  inited,
}
use bookcode_linux.GoodInit.Invariant.{Invariant, using, has_set}
use bookcode_linux.GoodInit.Laws.{Reach-Inited}

abbrev ops : List ℤ
ops = pos 2 ∷ negsuc 0 ∷ []

-- The first process has initialised the semaphore, which the second has found.
abbrev usable : State
usable = record {
  exists = true;
  otime = true;
  val = 0;
  procs = proc ready (up 2) ∷ proc (polling 10) (down 1) ∷ [];
}

run : Reach ops usable
run =
    next
      (next
        (next
          (next begin (
            step [] (proc begins (down 1) ∷ []) (proc begins (up 2)) refl
              (ProcStep.create (up 2) 7 refl)))
          (step (proc created (up 2) ∷ []) [] (proc begins (down 1)) refl
            (ProcStep.find (down 1) refl)))
        (step [] (proc (polling 10) (down 1) ∷ []) (proc created (up 2)) refl
          (ProcStep.set_val (up 2))))
      (step [] (proc (polling 10) (down 1) ∷ []) (proc inited (up 2)) refl
        (ProcStep.dummy_op (up 2) refl))

Reach-Inited_example :
    Invariant usable
    × ((using (proc ready (up 2)) ≡ 0) ⊎ (usable.otime ≡ true))
    × ((has_set (proc ready (up 2)) ≡ 0) ⊎ (usable.val ≡ 0))
Reach-Inited_example =
    Reach-Inited ops usable [] (proc (polling 10) (down 1) ∷ []) (proc ready (up 2)) run refl
