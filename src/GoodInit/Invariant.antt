-- ===== src/GoodInit/Invariant.antt =====
-- svsem_good_init.c: what holds of the semaphore and its processes at any time.
use bookcode_linux.Common.{ℕ, ◌+◌, ◌≤◌, ◌≡◌, ◌⊎◌, refl, Bool, true, false, List, arith}
use bookcode_linux.Common.Tally.{tally}
use bookcode_linux.GoodInit.{
  Op, up, down, wait_zero, Place, begins, created, inited, polling, ready, finished, failed, Proc,
  proc, State,
}

-- The process has called semget(2).
abbrev pub busy : Proc → ℕ
busy p = elim p.place [
  | begins ↦ 0
  | created ↦ 1
  | inited ↦ 1
  | polling j ↦ 1
  | ready ↦ 1
  | finished ↦ 1
  | failed ↦ 1
]

-- It has created the semaphore and not yet shown that it is initialised.
abbrev pub creating : Proc → ℕ
creating p = elim p.place [
  | begins ↦ 0
  | created ↦ 1
  | inited ↦ 1
  | polling j ↦ 0
  | ready ↦ 0
  | finished ↦ 0
  | failed ↦ 0
]

abbrev pub has_set : Proc → ℕ
has_set p = elim p.place [
  | begins ↦ 0
  | created ↦ 0
  | inited ↦ 1
  | polling j ↦ 0
  | ready ↦ 0
  | finished ↦ 0
  | failed ↦ 0
]

-- It may operate on the semaphore, or has done so.
abbrev pub using : Proc → ℕ
using p = elim p.place [
  | begins ↦ 0
  | created ↦ 0
  | inited ↦ 0
  | polling j ↦ 0
  | ready ↦ 1
  | finished ↦ 1
  | failed ↦ 0
]

abbrev pub raise : Op → ℕ
raise (up k) = k
raise (down k) = 0
raise wait_zero = 0

abbrev pub lower : Op → ℕ
lower (up k) = 0
lower (down k) = k
lower wait_zero = 0

abbrev when_finished : Place → ℕ → ℕ
when_finished finished k = k
when_finished p k = 0

-- What it has added to the value, or subtracted.
abbrev pub raised : Proc → ℕ
raised p = when_finished p.place (raise p.op)

abbrev pub lowered : Proc → ℕ
lowered p = when_finished p.place (lower p.op)

-- Before the semaphore exists no process has begun; then one process creates it, no other uses it,
-- and once its value is set it is 0; then nobody creates it, and its value is what the operations
-- that were performed make it.
abbrev pub At : Bool → Bool → ℕ → List Proc → Type 0
At false false v ps = tally busy ps ≡ 0
At false true v ps = ⊥
At true false v ps =
    (tally creating ps ≡ 1) × (tally using ps ≡ 0) × ((tally has_set ps ≡ 0) ⊎ (v ≡ 0))
At true true v ps = (tally creating ps ≡ 0) × (v + tally lowered ps ≡ tally raised ps)

abbrev pub Invariant : State → Type 0
Invariant s = At s.exists s.otime s.val s.procs

pub creating_le : (p : Place) (o : Op) → creating (proc p o) ≤ busy (proc p o)
creating_le begins o = omega arith
creating_le created o = omega arith
creating_le inited o = omega arith
creating_le (polling j) o = omega arith
creating_le ready o = omega arith
creating_le finished o = omega arith
creating_le failed o = omega arith

pub using_le : (p : Place) (o : Op) → using (proc p o) ≤ busy (proc p o)
using_le begins o = omega arith
using_le created o = omega arith
using_le inited o = omega arith
using_le (polling j) o = omega arith
using_le ready o = omega arith
using_le finished o = omega arith
using_le failed o = omega arith

pub has_set_le : (p : Place) (o : Op) → has_set (proc p o) ≤ creating (proc p o)
has_set_le begins o = omega arith
has_set_le created o = omega arith
has_set_le inited o = omega arith
has_set_le (polling j) o = omega arith
has_set_le ready o = omega arith
has_set_le finished o = omega arith
has_set_le failed o = omega arith

pub unused_counts : (p : Place) (k : ℕ) (o : Op) → using (proc p o) ≡ 0 → when_finished p k ≡ 0
unused_counts begins k o e = refl
unused_counts created k o e = refl
unused_counts inited k o e = refl
unused_counts (polling j) k o e = refl
unused_counts ready k o e = refl
unused_counts finished k o e = absurd (omega (arith, e))
unused_counts failed k o e = refl
