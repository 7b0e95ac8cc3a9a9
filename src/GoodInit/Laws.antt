-- ===== src/GoodInit/Laws.antt =====
-- svsem_good_init.c: no process uses the semaphore before it is initialised, and no initialisation
-- undoes an operation.
use bookcode_linux.Common.{
  ℕ, zero, suc, ◌+◌, ◌-◌, ◌<◌, ◌≡◌, ◌⊎◌, inl, inr, refl, sym, subst, Bool, true, false, List, [],
  ◌∷◌, ◌++◌, arith,
}
use bookcode_linux.Common.Tally.{tally, tally-at}
use bookcode_linux.Common.Int.{ℤ}
use bookcode_linux.GoodInit.{
  up, down, wait_zero, begins, created, inited, polling, ready, finished, failed, Proc, proc, State,
  ProcStep, step, starting, Reach, begin, next, max_tries,
}
use bookcode_linux.GoodInit.Invariant.{
  busy, creating, has_set, using, raised, lowered, At, Invariant, creating_le, using_le, has_set_le,
}
use bookcode_linux.GoodInit.Moves.{
  not_before, At-same, create-At, set_val-At, dummy_op-At, op-At, see_init-At,
}

-- The semaphore exists once a process has called semget(2).
existing :
    (b o o' : Bool) (v v' : ℕ) (pre : List Proc) (x y : Proc) (post : List Proc)
    → 0 < busy x
    → (At true o v (pre ++ x ∷ post) → At true o' v' (pre ++ y ∷ post))
    → At b o v (pre ++ x ∷ post)
    → At b o' v' (pre ++ y ∷ post)
existing false o o' v v' pre x y post more move a = absurd (not_before o v pre x post more a)
existing true o o' v v' pre x y post more move a = move a

module _ (s : State) (pre post : List Proc) where
  -- A process that has called semget(2) moves.
  moved :
      (x y : Proc) (o' : Bool) (v' : ℕ)
      → s.procs ≡ pre ++ x ∷ post
      → 0 < busy x
      → (At true s.otime s.val (pre ++ x ∷ post) → At true o' v' (pre ++ y ∷ post))
      → Invariant s
      → At s.exists o' v' (pre ++ y ∷ post)
  moved x y o' v' e more move i =
      existing s.exists s.otime o' s.val v' pre x y post more move
        (subst (At s.exists s.otime s.val) e i)

  -- A process moves on without a change that the others see.
  moved_on :
      (x y : Proc)
      → s.procs ≡ pre ++ x ∷ post
      → 0 < busy x
      → creating x ≡ creating y
      → has_set x ≡ has_set y
      → using x ≡ using y
      → lowered x ≡ lowered y
      → raised x ≡ raised y
      → Invariant s
      → At s.exists s.otime s.val (pre ++ y ∷ post)
  moved_on x y e more c h u d r i =
      moved x y s.otime s.val e more (At-same s.otime s.val pre x y post c h u d r) i

ProcStep-Invariant :
    {s s' : State} (pre post : List Proc) (p : Proc)
    → s.procs ≡ pre ++ p ∷ post
    → ProcStep s pre post p s'
    → Invariant s
    → Invariant s'
ProcStep-Invariant {s} pre post _ e (ProcStep.create o v free) i =
    create-At s.otime s.val v pre o post (
      subst (λ b. At b s.otime s.val (pre ++ proc begins o ∷ post)) free
        (subst (At s.exists s.otime s.val) e i))
ProcStep-Invariant {s} pre post _ e (ProcStep.find o there) i =
    subst (λ b. At b s.otime s.val (pre ++ proc (polling max_tries) o ∷ post)) (sym there)
      (At-same s.otime s.val pre (proc begins o) (proc (polling max_tries) o) post refl refl refl
        refl refl
        (subst (λ b. At b s.otime s.val (pre ++ proc begins o ∷ post)) there
          (subst (At s.exists s.otime s.val) e i)))
ProcStep-Invariant {s} pre post _ e (ProcStep.set_val o) i =
    moved s pre post (proc created o) (proc inited o) s.otime 0 e (omega arith)
      (set_val-At s.otime s.val pre o post) i
ProcStep-Invariant {s} pre post _ e (ProcStep.dummy_op o z) i =
    moved s pre post (proc inited o) (proc ready o) true s.val e (omega arith)
      (dummy_op-At s.otime s.val pre o post z) i
ProcStep-Invariant {s} pre post _ e (ProcStep.see_init o j seen) i =
    moved s pre post (proc (polling (suc j)) o) (proc ready o) s.otime s.val e (omega arith)
      (subst
        (λ t.
          At true t s.val (pre ++ proc (polling (suc j)) o ∷ post)
          → At true t s.val (pre ++ proc ready o ∷ post))
        (sym seen) (see_init-At s.val pre o j post))
      i
ProcStep-Invariant {s} pre post _ e (ProcStep.try_again o j unseen) i =
    moved_on s pre post (proc (polling (suc j)) o) (proc (polling j) o) e (omega arith) refl refl
      refl refl refl i
ProcStep-Invariant {s} pre post _ e (ProcStep.give_up o) i =
    moved_on s pre post (proc (polling zero) o) (proc failed o) e (omega arith) refl refl refl refl
      refl i
ProcStep-Invariant {s} pre post _ e (ProcStep.add k) i =
    moved s pre post (proc ready (up k)) (proc finished (up k)) true (s.val + k) e (omega arith)
      (op-At s.otime s.val (s.val + k) pre (up k) post (omega arith)) i
ProcStep-Invariant {s} pre post _ e (ProcStep.subtract k enough) i =
    moved s pre post (proc ready (down k)) (proc finished (down k)) true (s.val - k) e (omega arith)
      (op-At s.otime s.val (s.val - k) pre (down k) post (omega (arith, enough))) i
ProcStep-Invariant {s} pre post _ e (ProcStep.see_zero z) i =
    moved s pre post (proc ready wait_zero) (proc finished wait_zero) true s.val e (omega arith)
      (op-At s.otime s.val s.val pre wait_zero post refl) i

starting_idle : (os : List ℤ) → tally busy (starting os) ≡ 0
starting_idle [] = refl
starting_idle (o ∷ os) = omega (arith, starting_idle os)

Reach-Invariant : (os : List ℤ) (s : State) → Reach os s → Invariant s
Reach-Invariant os _ begin = starting_idle os
Reach-Invariant os _ (next {s} r (step pre post p e move)) =
    ProcStep-Invariant pre post p e move (Reach-Invariant os s r)

-- A process that uses the semaphore finds it initialised.
using-otime :
    (b o : Bool) (v : ℕ) (pre : List Proc) (p : Proc) (post : List Proc)
    → At b o v (pre ++ p ∷ post)
    → (using p ≡ 0) ⊎ (o ≡ true)
using-otime false false v pre p post a =
    inl (omega (arith, a, using_le p.place p.op, tally-at busy pre p post))
using-otime false true v pre p post a = absurd a
using-otime true false v pre p post (a, b, h) = inl (omega (arith, b, tally-at using pre p post))
using-otime true true v pre p post a = inr refl

-- A process that has set the value finds it as it was set.
has_set-zero :
    (b o : Bool) (v : ℕ) (pre : List Proc) (p : Proc) (post : List Proc)
    → At b o v (pre ++ p ∷ post)
    → (has_set p ≡ 0) ⊎ (v ≡ 0)
has_set-zero false false v pre p post a =
    inl (
      omega (arith, a, has_set_le p.place p.op, creating_le p.place p.op, tally-at busy pre p post))
has_set-zero false true v pre p post a = absurd a
has_set-zero true false v pre p post (a, b, inl h) =
    inl (omega (arith, h, tally-at has_set pre p post))
has_set-zero true false v pre p post (a, b, inr z) = inr z
has_set-zero true true v pre p post (a, b) =
    inl (omega (arith, a, has_set_le p.place p.op, tally-at creating pre p post))

-- However many processes run the program and are interleaved: at most one creates the semaphore;
-- none of them comes to its own operation before the creator has set the value and shown it by a
-- first semop(2), which never waits, since the value is still 0; and from then on the value is
-- the sum of all that was added less all that was subtracted, so that no operation is lost.
pub Reach-Inited :
    (os : List ℤ) (s : State) (pre post : List Proc) (p : Proc)
    → Reach os s
    → s.procs ≡ pre ++ p ∷ post
    → Invariant s × ((using p ≡ 0) ⊎ (s.otime ≡ true)) × ((has_set p ≡ 0) ⊎ (s.val ≡ 0))
Reach-Inited os s pre post p r e =
    let i = Reach-Invariant os s r in
    let at : At s.exists s.otime s.val (pre ++ p ∷ post) = subst (At s.exists s.otime s.val) e i in
    (
      i,
      using-otime s.exists s.otime s.val pre p post at,
      has_set-zero s.exists s.otime s.val pre p post at,
    )
