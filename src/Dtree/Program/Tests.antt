-- ===== src/Dtree/Program/Tests.antt =====
-- The directory-tree monitor on a small machine.
use bookcode_linux.Common.{
  ℕ, ◌+◌, ◌≡◌, ◌≤◌, refl, true, false, some, [], ◌∷◌, ◌++◌, Bytes, Ends, length, codes, replicate,
  arith,
}
use bookcode_linux.Common.Int.{pos}
use bookcode_linux.Dtree.Outcome.{running, Returns}
use bookcode_linux.Dtree.Cache.{
  Cache, slash, event_path, Cache, unused, add_watch_to_cache, find_watch, find_empty_cache_slot,
}
use bookcode_linux.Dtree.Cache.Lookup.{lookup}
use bookcode_linux.Dtree.Cache.Unique.{IsUnique}
use bookcode_linux.Dtree.Kernel.{Kernel, State, added}
use bookcode_linux.Dtree.Roots.{
  copy_root_dir_paths, find_root_dir_path, is_root_dir_path, zap_root_dir_path,
}
use bookcode_linux.Dtree.Roots.Laws.{live, IsCounted, Zapped, zap_root_dir_path-Zapped}
use bookcode_linux.Dtree.Watch.{
  reinitialize, watch_roots, watch_subtree, watch_dir, traverse_all, traverse_tree, zap_subtree,
  in_moved_from, in_moved_to,
}
use bookcode_linux.Dtree.Watch.Zap
use bookcode_linux.Dtree.Event.{Event, process_next_inotify_event, kind, in_isdir}
use bookcode_linux.Dtree.Event.Progress.{Replied, process_next_inotify_event-Replied}
use bookcode_linux.Dtree.Event.MovedOut.{Removed, process_next_inotify_event-moved_out}
use bookcode_linux.Dtree.Cache.Renamed.{Renamed}
use bookcode_linux.Dtree.Event.Rename.{process_next_inotify_event-rename}
use bookcode_linux.Dtree.Reader.{events, failed, eintr, process_inotify_events}
use bookcode_linux.Dtree.Program.{Options, initial_state, start, Reach, started}
use bookcode_linux.Dtree.Program.Laws.{Reach-Invariant, process_inotify_events-Unique}

-- Every pathname is a directory without others in it; the world counts the watch descriptors.
abbrev disk : Kernel
disk = record {
  World = ℕ;
  lstat = λ w p. some (record { is_dir = true; ino = length p; dev = 1 });
  add_watch = λ w fd p m. (added (pos w), w + 1);
  rm_watch = λ w fd wd. (true, w);
  walk = λ w p. ((p, true) ∷ [], true);
  init = λ w. (pos 3, w);
  close = λ w fd. w;
  can_open = λ w p. true;
}

abbrev options : Options
options = record {
  check_cache = false;
  dump_cache = false;
  abort_on_problem = false;
  verbose_mask = pos 0;
}

abbrev root_a : Bytes
root_a = codes "/a"

abbrev dir_b : Bytes
dir_b = codes "/a/b"

-- Two watched directories.
abbrev two : Cache
two = record { wd = pos 1; path = root_a } ∷ record { wd = pos 2; path = dir_b } ∷ unused ∷ []

abbrev monitor : State ℕ
monitor = record {
  world = 3;
  cache = two;
  roots = some root_a ∷ some dir_b ∷ [];
  ignored_roots = 0;
  dir_cnt = 2;
  reinit_cnt = 0;
  overflow_cnt = 0;
  read_cnt = 0;
  check_cache = false;
  dump_cache = false;
  abort_on_problem = false;
  verbose_mask = pos 0;
}

abbrev from : Event
from = record {
  wd = pos 1;
  mask = in_moved_from + in_isdir;
  cookie = 7;
  len = 16;
  name = codes "b";
}

abbrev into : Event
into = record { wd = pos 1; mask = in_moved_to + in_isdir; cookie = 7; len = 16; name = codes "c" }

two-IsUnique : IsUnique two
unfolding lookup
two-IsUnique = (refl, (refl, (tt, tt)))

process_next_inotify_event-rename_example :
    (c : Cache) × (process_next_inotify_event disk (pos 3) from (into ∷ []) 64 true monitor
      ≡ running (pos 64, pos 3, record monitor { cache = c }))
    × Renamed (root_a ++ slash ∷ codes "b") (root_a ++ slash ∷ codes "c") monitor.cache c
unfolding lookup kind
process_next_inotify_event-rename_example =
    process_next_inotify_event-rename disk (pos 3) from into [] 64 true monitor root_a root_a refl
      refl refl refl refl refl refl (omega arith) (omega arith)

process_next_inotify_event-Replied_example :
    Returns
      (Replied disk (pos 3) true monitor from [])
      (process_next_inotify_event disk (pos 3) from [] 32 true monitor)
process_next_inotify_event-Replied_example =
    process_next_inotify_event-Replied disk (pos 3) true monitor from [] 32

zap_root_dir_path-Zapped_example :
    Zapped disk root_a monitor (zap_root_dir_path disk root_a monitor)
zap_root_dir_path-Zapped_example = zap_root_dir_path-Zapped disk root_a monitor refl

process_inotify_events-Unique_example :
    Ends
      (Returns (λ r. IsUnique r.1.cache))
      (process_inotify_events disk (pos 3) (events (from ∷ [])) (failed eintr ∷ []) monitor)
process_inotify_events-Unique_example =
    process_inotify_events-Unique disk (pos 3) (events (from ∷ [])) (failed eintr ∷ []) monitor
      two-IsUnique

zap_subtree-Zapped_example :
    let (r, s') = zap_subtree disk (pos 3) root_a monitor in
    Zap.Zapped disk root_a 2 0 two (r, s'.cache, s'.world)
zap_subtree-Zapped_example = Zap.zap_subtree-Zapped disk (pos 3) root_a 2 monitor two-IsUnique

abbrev monitor_a : State ℕ
monitor_a = record {
  world = 2;
  cache = record { wd = pos 1; path = root_a } ∷ replicate 199 unused;
  roots = some root_a ∷ [];
  ignored_roots = 0;
  dir_cnt = 1;
  reinit_cnt = 0;
  overflow_cnt = 0;
  read_cnt = 0;
  check_cache = false;
  dump_cache = false;
  abort_on_problem = false;
  verbose_mask = pos 0;
}

reached : Reach disk options (root_a ∷ []) (pos 3, monitor_a)
unfolding start initial_state copy_root_dir_paths reinitialize watch_roots watch_subtree watch_dir
    traverse_all traverse_tree find_watch add_watch_to_cache find_empty_cache_slot is_root_dir_path
    find_root_dir_path
reached = started 1 (pos 3, monitor_a) refl

Reach-Invariant_example :
    IsUnique monitor_a.cache × IsCounted monitor_a × (1 ≤ live monitor_a.roots)
Reach-Invariant_example = Reach-Invariant disk options (root_a ∷ []) (pos 3) monitor_a reached

disk-Removes : Zap.Removes disk (pos 3)
disk-Removes w wd = refl

process_next_inotify_event-moved_out_example :
    Removed disk
      (event_path root_a (codes "b"))
      2
      32
      (pos 3)
      monitor
      (process_next_inotify_event disk (pos 3) from [] 32 false monitor)
unfolding lookup kind
process_next_inotify_event-moved_out_example =
    process_next_inotify_event-moved_out disk (pos 3) from [] 32 2 false monitor root_a refl refl
      refl refl refl refl two-IsUnique disk-Removes
