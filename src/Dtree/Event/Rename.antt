-- ===== src/Dtree/Event/Rename.antt =====
-- The renames: a pair of "moved from" and "moved to" events, and one without its partner.
use bookcode_linux.Common.{
  ℕ, ◌+◌, ◌<◌, ◌≡◌, refl, Bool, true, false, some, List, ◌∷◌, ◌++◌, Bytes, length, ltb, arith,
}
use bookcode_linux.Common.Int.{ℤ, pos, negsuc}
use bookcode_linux.Dtree.Outcome.{running}
use bookcode_linux.Dtree.Cache.{Cache, slash, path_max, find_watch, rewrite_cached_paths}
use bookcode_linux.Dtree.Cache.Renamed.{Renamed, rewrite_cached_paths-Renamed}
use bookcode_linux.Dtree.Cache.Lookup.{lookup, Found, find_watch-Found}
use bookcode_linux.Dtree.Kernel.{Kernel, State}
use bookcode_linux.Dtree.Event.{
  Event, moved_from, kind, size, is_checked, is_pair, at, path_at, find_watch_checked,
  process_next_inotify_event,
}

module _ (os : Kernel) where
  open os use {World}

  -- The descriptor's slot, which holds the pathname of the map.
  abbrev pub Located : ℤ → Bytes → State World → Type 0
  Located wd p s =
      (j : ℕ) × (find_watch_checked os wd s ≡ running (at j)) × (path_at s.cache j ≡ running p)

  pub located : (wd : ℤ) (p : Bytes) (s : State World) → lookup wd s.cache ≡ some p → Located wd p s
  unfolding find_watch_checked
  located wd p s h = go (find_watch wd s.cache) refl (find_watch-Found wd s.cache)
    where
      go : (r : ℤ) → find_watch wd s.cache ≡ r → Found wd 0 s.cache r → Located wd p s
      go (pos j) e (k, x, a, g, w, l) =
          (j, rw (e, find_watch_checked) refl, ground (arith, a, g, l, h))
      go (negsuc j) e (a, l) = absurd (ground (arith, l, h))

  -- A "moved from" event for a directory with its "moved to" event behind it, both in directories
  -- that are in the cache, with cache checking off and pathnames that fit PATH_MAX: both events are
  -- consumed; the descriptors of the directory and of all below it get the new pathname, cut to
  -- PATH_MAX - 1 bytes; and no other descriptor and nothing else of the state changes.
  pub process_next_inotify_event-rename :
      (fd : ℤ) (ev next : Event) (rest : List Event) (n : ℕ) (first : Bool) (s : State World)
      (old new : Bytes)
      → is_checked ev ≡ true
      → kind ev.mask ≡ moved_from
      → ltb (size ev) n ≡ true
      → is_pair ev (next ∷ rest) ≡ true
      → lookup ev.wd s.cache ≡ some old
      → lookup next.wd s.cache ≡ some new
      → s.check_cache ≡ false
      → length (old ++ slash ∷ ev.name) < path_max
      → length (new ++ slash ∷ next.name) < path_max
      → (c : Cache) × (process_next_inotify_event os fd ev (next ∷ rest) n first s
          ≡ running (pos (16 + ev.len + (16 + next.len)), fd, record s { cache = c }))
        × Renamed (old ++ slash ∷ ev.name) (new ++ slash ∷ next.name) s.cache c
  unfolding process_next_inotify_event
  process_next_inotify_event-rename fd ev next rest n first s old new c k l p ho hn hc fo fn =
      let (j, fj, pj) = located ev.wd old s ho in
      let (i, fi, pi) = located next.wd new s hn in
      (
        rewrite_cached_paths old ev.name new next.name s.cache,
        rw (c, fj, k, l, p, fi, pj, pi, hc) refl,
        rewrite_cached_paths-Renamed old ev.name new next.name s.cache fo fn,
      )
