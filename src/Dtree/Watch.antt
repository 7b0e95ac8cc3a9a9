-- ===== src/Dtree/Watch.antt =====
-- Adding and removing watches for whole subtrees, and rebuilding the cache.
pub mod Unique
pub mod Zap
pub mod Frame
use bookcode_linux.Common.{
  ℕ, ◌+◌, Bool, true, false, ◌&&◌, Option, none, some, List, [], ◌∷◌, Bytes, length, ◌==◌,
  if◌then◌else◌,
}
use bookcode_linux.Common.Int.{ℤ, pos, is_nonneg, minus_one, eq_ℤ}
use bookcode_linux.Dtree.Outcome.{Outcome, running, exited, exit_failure, ◌>>=◌}
use bookcode_linux.Dtree.Cache.{
  Watch, Cache, unused, is_used, find_watch, add_watch_to_cache, in_subtree, used_entries_from,
}
use bookcode_linux.Dtree.Kernel.{Kernel, State, Added, added, refused}
use bookcode_linux.Dtree.Roots.{Roots, is_root_dir_path}

-- The bits of <sys/inotify.h>.
abbrev pub in_moved_from : ℕ
in_moved_from = 0x40

abbrev pub in_moved_to : ℕ
in_moved_to = 0x80

abbrev pub in_create : ℕ
in_create = 0x100

abbrev pub in_delete_self : ℕ
in_delete_self = 0x400

abbrev pub in_move_self : ℕ
in_move_self = 0x800

abbrev pub in_onlydir : ℕ
in_onlydir = 0x01000000

abbrev pub enoent : ℕ
enoent = 2

-- The bits are distinct, so `|` adds them.
abbrev pub watch_flags : Bool → ℕ
watch_flags is_root =
    in_create
    + in_moved_from
    + in_moved_to
    + in_delete_self
    + (if is_root then in_move_self else 0)
    + in_onlydir

module _ (os : Kernel) where
  open os use {World, add_watch, rm_watch, walk, init, close}

  -- The end of `traverseTree`, behind inotify_add_watch().
  abbrev pub watch_added : Bytes → Added → State World → Outcome (State World)
  watch_added pathname (refused e) s = if e == enoent then running s else exited exit_failure
  watch_added pathname (added wd) s =
      if is_nonneg (find_watch wd s.cache)
      then running s
      else running
          (record s { dir_cnt = s.dir_cnt + 1; cache = (add_watch_to_cache wd pathname s.cache).1 })

  -- `traverseTree`, called by nftw() for one file.
  unfoldable pub traverse_tree : ℤ → Bytes → Bool → State World → Outcome (State World)
  traverse_tree fd pathname is_dir s =
      if is_dir
      then (let (r, w) =
            add_watch s.world fd pathname (watch_flags (is_root_dir_path pathname s.roots)) in
          watch_added pathname r (record s { world = w }))
      else running s

  -- The calls of the callback, in order. It always returns 0 or ends the program.
  unfoldable pub traverse_all : ℤ → List (Bytes × Bool) → State World → Outcome (State World)
  traverse_all fd [] s = running s
  traverse_all fd ((p, d) ∷ files) s = traverse_tree fd p d s >>= traverse_all fd files

  -- A failure of nftw() is only logged. The count added is left in `dir_cnt`.
  unfoldable pub watch_dir : ℤ → Bytes → State World → Outcome (State World)
  watch_dir fd pathname s = traverse_all fd (walk s.world pathname).0 (record s { dir_cnt = 0 })

  -- `watchSubtree` only logs the count.
  unfoldable pub watch_subtree : ℤ → Bytes → State World → Outcome (State World)
  watch_subtree fd path s = watch_dir fd path s

  -- The loop of `zapSubtree` from one slot on, with the count so far. The value is -1 if
  -- inotify_rm_watch() failed; the slots behind are then left alone.
  pub zap_from : ℤ → Bytes → ℕ → Cache → World → ℤ × Cache × World
  zap_from fd pn cnt [] w = (pos cnt, [], w)
  zap_from fd pn cnt (x ∷ c) w = elim (is_used x && in_subtree pn x.path) [
    | false ↦ (let (r, c', w') = zap_from fd pn cnt c w in (r, x ∷ c', w'))
    | true ↦
        (let (done, w') = rm_watch w fd x.wd in
          elim done [
            | false ↦ (minus_one, x ∷ c, w')
            | true ↦ (let (r, c', w'') = zap_from fd pn (cnt + 1) c w' in (r, unused ∷ c', w''))
          ])
  ]

  pub zap_subtree : ℤ → Bytes → State World → ℤ × State World
  zap_subtree fd path s =
      let (r, c, w) = zap_from fd path 0 s.cache s.world in (r, record s { cache = c; world = w })

  -- `for (j = 0; j < numRootDirs; j++) if (rootDirPaths[j] != NULL) watchSubtree(...)`
  unfoldable pub watch_roots : ℤ → Roots → State World → Outcome (State World)
  watch_roots fd [] s = running s
  watch_roots fd (none ∷ rs) s = watch_roots fd rs s
  watch_roots fd (some p ∷ rs) s = watch_subtree fd p s >>= watch_roots fd rs

  abbrev pub reset : ℤ → State World → State World
  reset old_fd s =
      if is_nonneg old_fd
      then record s { world = close s.world old_fd; reinit_cnt = s.reinit_cnt + 1 }
      else record s { reinit_cnt = 0 }

  -- The rest of `reinitialize`, behind inotify_init().
  abbrev pub rebuild : ℤ → State World → Outcome (ℤ × State World)
  rebuild fd s =
      if eq_ℤ fd minus_one
      then exited exit_failure
      else (watch_roots fd s.roots (record s { cache = [] }) >>= λ s'. running (fd, s'))

  unfoldable pub reinitialize : ℤ → State World → Outcome (ℤ × State World)
  reinitialize old_fd s =
      let s1 = reset old_fd s in let (fd, w) = init s1.world in rebuild fd (record s1 { world = w })
