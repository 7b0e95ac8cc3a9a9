-- ===== src/Dtree/Kernel.antt =====
-- The calls of inotify_dtree.c into the kernel and nftw(3), and the state of the program.
use bookcode_linux.Common.{ℕ, Bool, Option, List, Bytes}
use bookcode_linux.Common.Int.{ℤ}
use bookcode_linux.Dtree.Cache.{Cache}

-- What the program reads of a `struct stat`.
pub record Stat : Type 0 where
  pub is_dir : Bool
  pub ino : ℕ
  pub dev : ℕ

pub data Added : Type 0 where
  added : ℤ → Added
  -- -1 and `errno`
  refused : ℕ → Added

-- The system calls over a state `World` of the rest of the machine. `walk` is nftw(3): the calls
-- of its callback, as pathname and `S_ISDIR`, and whether it succeeds; what other processes do
-- meanwhile is part of what it returns.
pub record Kernel : Type 1 where
  pub World : Type 0
  pub lstat : World → Bytes → Option Stat
  pub add_watch : World → ℤ → Bytes → ℕ → Added × World
  pub rm_watch : World → ℤ → ℤ → Bool × World
  pub walk : World → Bytes → List (Bytes × Bool) × Bool
  pub init : World → ℤ × World
  pub close : World → ℤ → World
  -- fopen(arg, "w+") succeeds
  pub can_open : World → Bytes → Bool

-- The global variables of the program, and the world.
pub record State (W : Type 0) : Type 0 where
  pub world : W
  pub cache : Cache
  -- `rootDirPaths`; `none` is NULL
  pub roots : List (Option Bytes)
  pub ignored_roots : ℕ
  pub dir_cnt : ℕ
  pub reinit_cnt : ℕ
  pub overflow_cnt : ℕ
  pub read_cnt : ℕ
  pub check_cache : Bool
  pub dump_cache : Bool
  pub abort_on_problem : Bool
  pub verbose_mask : ℤ
