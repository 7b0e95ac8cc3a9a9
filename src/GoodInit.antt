-- ===== src/GoodInit.antt =====
-- The program TLPI/svsem/svsem_good_init.c, any number of which create and initialise one semaphore
-- without a race, as a step relation.
pub mod Invariant
pub mod Moves
pub mod Laws
mod Tests
use bookcode_linux.Common.{ℕ, zero, suc, ◌+◌, ◌-◌, ◌≤◌, ◌≡◌, Bool, true, false, List, [], ◌∷◌, ◌++◌}
use bookcode_linux.Common.Int.{ℤ, pos, negsuc}
use bookcode_linux.Semop.{to_short}

abbrev pub max_tries : ℕ
max_tries = 10

-- The operation of a process: a value above 0, below 0 or 0.
pub data Op : Type 0 where
  up : ℕ → Op
  down : ℕ → Op
  wait_zero : Op

-- `sem_op`, a short, gets the int that `getInt` reads.
abbrev pub op_of : ℤ → Op
op_of (pos zero) = wait_zero
op_of (pos (suc n)) = up (suc n)
op_of (negsuc n) = down (suc n)

-- Where a process stands: before semget(2); it has created the semaphore; has set its value; has
-- found it, with tries left to see it initialised; is before its own operation; has performed it;
-- has given up.
pub data Place : Type 0 where
  begins : Place
  created : Place
  inited : Place
  polling : ℕ → Place
  ready : Place
  finished : Place
  failed : Place

pub record Proc : Type 0 where
  pub place : Place
  pub op : Op

abbrev pub proc : Place → Op → Proc
proc p o = record { place = p; op = o }

-- The semaphore and the processes: whether it exists, whether semop(2) was ever called on it
-- (`sem_otime != 0`), and its value.
pub record State : Type 0 where
  pub exists : Bool
  pub otime : Bool
  pub val : ℕ
  pub procs : List Proc

-- One step of a process, among the others. semget(2) leaves any value in a new semaphore; semop(2)
-- waits where a guard does not hold.
pub data ProcStep (s : State) (pre post : List Proc) : Proc → State → Type 0 where
  create :
      (o : Op) (v : ℕ)
      → s.exists ≡ false
      → ProcStep s pre post
          (proc begins o)
          (record { exists = true; otime = false; val = v; procs = pre ++ proc created o ∷ post })
  find :
      (o : Op)
      → s.exists ≡ true
      → ProcStep s pre post
          (proc begins o)
          (record s { procs = pre ++ proc (polling max_tries) o ∷ post })
  set_val :
      (o : Op)
      → ProcStep s pre post
          (proc created o)
          (record s { val = 0; procs = pre ++ proc inited o ∷ post })
  dummy_op :
      (o : Op)
      → s.val ≡ 0
      → ProcStep s pre post
          (proc inited o)
          (record s { otime = true; procs = pre ++ proc ready o ∷ post })
  see_init :
      (o : Op) (j : ℕ)
      → s.otime ≡ true
      → ProcStep s pre post
          (proc (polling (suc j)) o)
          (record s { procs = pre ++ proc ready o ∷ post })
  try_again :
      (o : Op) (j : ℕ)
      → s.otime ≡ false
      → ProcStep s pre post
          (proc (polling (suc j)) o)
          (record s { procs = pre ++ proc (polling j) o ∷ post })
  give_up :
      (o : Op)
      → ProcStep s pre post
          (proc (polling zero) o)
          (record s { procs = pre ++ proc failed o ∷ post })
  add :
      (k : ℕ)
      → ProcStep s pre post
          (proc ready (up k))
          (record s { otime = true; val = s.val + k; procs = pre ++ proc finished (up k) ∷ post })
  subtract :
      (k : ℕ)
      → k ≤ s.val
      → ProcStep s pre post
          (proc ready (down k))
          (record s { otime = true; val = s.val - k; procs = pre ++ proc finished (down k) ∷ post })
  see_zero :
      s.val ≡ 0
      → ProcStep s pre post
          (proc ready wait_zero)
          (record s { otime = true; procs = pre ++ proc finished wait_zero ∷ post })

pub data Step (s : State) : State → Type 0 where
  step :
      {s' : State} (pre post : List Proc) (p : Proc)
      → s.procs ≡ pre ++ p ∷ post
      → ProcStep s pre post p s'
      → Step s s'

abbrev pub starting : List ℤ → List Proc
starting [] = []
starting (v ∷ vs) = proc begins (op_of (to_short v)) ∷ starting vs

-- No semaphore yet, and processes with these arguments.
abbrev pub start : List ℤ → State
start os = record { exists = false; otime = false; val = 0; procs = starting os }

pub data Reach (os : List ℤ) : State → Type 0 where
  begin : Reach os (start os)
  next : {s s' : State} → Reach os s → Step s s' → Reach os s'
