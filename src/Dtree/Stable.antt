-- ===== src/Dtree/Stable.antt =====
-- An invariant of the program's state, as the operations that the events and the commands call
-- have to keep it.
use bookcode_linux.Common.{ℕ, Bool, Bytes}
use bookcode_linux.Common.Int.{ℤ}
use bookcode_linux.Dtree.Outcome.{Returns}
use bookcode_linux.Dtree.Cache.{mark_cache_slot_empty, rewrite_cached_paths}
use bookcode_linux.Dtree.Kernel.{Kernel, State}
use bookcode_linux.Dtree.Roots.{zap_root_dir_path}
use bookcode_linux.Dtree.Watch.{watch_subtree, zap_subtree, reinitialize}

-- Each operation keeps `P` if it returns; the fields that only count or switch are free.
pub record Stable (os : Kernel) (P : State os.World → Type 0) : Type 0 where
  pub watches :
      (fd : ℤ) (p : Bytes) (s : State os.World) → P s → Returns P (watch_subtree os fd p s)
  pub rebuilds : (fd : ℤ) (s : State os.World) → P s → Returns (λ r. P r.1) (reinitialize os fd s)
  pub zaps : (fd : ℤ) (p : Bytes) (s : State os.World) → P s → P (zap_subtree os fd p s).1
  pub zaps_root : (p : Bytes) (s : State os.World) → P s → Returns P (zap_root_dir_path os p s)
  pub clears :
      (j : ℕ) (s : State os.World) → P s → P (record s { cache = mark_cache_slot_empty j s.cache })
  pub rewrites :
      (old old_name new new_name : Bytes) (s : State os.World)
      → P s
      → P (record s { cache = rewrite_cached_paths old old_name new new_name s.cache })
  pub moves_on : (w : os.World) (s : State os.World) → P s → P (record s { world = w })
  pub counts :
      (overflows reads : ℕ) (s : State os.World)
      → P s
      → P (record s { overflow_cnt = overflows; read_cnt = reads })
  pub switches :
      (check dump : Bool) (mask : ℤ) (s : State os.World)
      → P s
      → P (record s { check_cache = check; dump_cache = dump; verbose_mask = mask })
