-- ===== src/Sems/Mutex.antt =====
-- Processes that reserve and release one binary semaphore exclude one another.
use bookcode_linux.Common.{
  ℕ, suc, ◌≡◌, Bool, true, false, none, some, List, [], ◌∷◌, get_elem?, set, replicate,
}
use bookcode_linux.Io.Posix.{done, fail}
use bookcode_linux.Sems.{Turn, reserve_sem, release_sem, init_sem_available}

-- The semaphore's value, and for each process whether it has reserved and not released it.
pub record Lock : Type 0 where
  pub value : ℕ
  pub inside : List Bool

-- A process calls `reserveSem` outside or `releaseSem` inside; a call that fails changes nothing
-- for the process.
pub data Step (retry : Bool) (l : Lock) : Lock → Type 0 where
  enters :
      (i v : ℕ) (ts : List Turn)
      → get_elem? l.inside i ≡ some false
      → reserve_sem retry l.value ts ≡ some (done 0, v)
      → Step retry l (record { value = v; inside = set l.inside i true })
  enter_fails :
      (e v : ℕ) (ts : List Turn)
      → reserve_sem retry l.value ts ≡ some (fail e, v)
      → Step retry l (record { value = v; inside = l.inside })
  leaves :
      (i v : ℕ) (ts : List Turn)
      → get_elem? l.inside i ≡ some true
      → release_sem l.value ts ≡ some (done 0, v)
      → Step retry l (record { value = v; inside = set l.inside i false })
  leave_fails :
      (e v : ℕ) (ts : List Turn)
      → release_sem l.value ts ≡ some (fail e, v)
      → Step retry l (record { value = v; inside = l.inside })

-- `n` processes, after initSemAvailable().
pub data Reach (retry : Bool) (n : ℕ) : Lock → Type 0 where
  begin :
      (v : ℕ)
      → Reach retry n (record { value = (init_sem_available none v).1; inside = replicate n false })
  next : {l l' : Lock} → Reach retry n l → Step retry l l' → Reach retry n l'

abbrev pub count : List Bool → ℕ
count [] = 0
count (true ∷ bs) = suc (count bs)
count (false ∷ bs) = count bs
