-- ===== src/Dtree/Event/MovedOut.antt =====
-- A directory that is renamed out of the monitored trees.
use bookcode_linux.Common.{
  ℕ, ◌≡◌, refl, Bool, true, false, not, ◌&&◌, ◌||◌, some, List, [], ◌∷◌, Bytes, ltb, ◌∙◌, arith,
  if_rule,
}
use bookcode_linux.Common.Int.{ℤ, pos}
use bookcode_linux.Dtree.Outcome.{Outcome, running}
use bookcode_linux.Dtree.Cache.{event_path}
use bookcode_linux.Dtree.Cache.Lookup.{lookup}
use bookcode_linux.Dtree.Cache.Unique.{IsUnique}
use bookcode_linux.Dtree.Kernel.{Kernel, State}
use bookcode_linux.Dtree.Watch.{zap_subtree}
use bookcode_linux.Dtree.Watch.Zap.{keep_outside, Removes, Gone, zap_subtree-Gone}
use bookcode_linux.Dtree.Event.{
  Event, Reply, Slot, at, moved_from, kind, size, is_checked, is_pair, finish, finish_zap,
  on_moved_out, on_moved_from, process_next_inotify_event,
}
use bookcode_linux.Dtree.Event.Rename.{located}

module _ (os : Kernel) where
  open os use {World}

  -- One event is consumed, and of the map the entries outside `dir` are left.
  abbrev pub Removed : Bytes → ℕ → ℕ → ℤ → State World → Outcome (Reply World) → Type 0
  Removed dir m n fd s o =
      (s' : State World) × (o ≡ running (pos n, fd, s'))
      × (lookup (pos m) s'.cache ≡ keep_outside dir (lookup (pos m) s.cache))

  finish_off :
      (n : ℕ) (fd : ℤ) (s : State World)
      → s.check_cache ≡ false
      → finish os n fd s ≡ running (pos n, fd, s)
  finish_off n fd s c =
      if_rule (λ o. o ≡ running (pos n, fd, s)) s.check_cache (λ t. absurd (ground (arith, t, c)))
        (λ f. refl)

  finish-Removed :
      (dir : Bytes) (m n : ℕ) (fd : ℤ) (s : State World) (r : ℤ × State World)
      → s.check_cache ≡ false
      → Gone os dir m s r
      → Removed dir m n fd s (finish_zap os n fd r)
  finish-Removed dir m n fd s (r, s') c (k, e, same, l) =
      rw e (s', finish_off n fd s' (same ∙ c), l)

  and_false : (a b : Bool) → b ≡ false → (a && b) ≡ false
  and_false true b h = h
  and_false false b h = refl

  alone :
      (fd : ℤ) (slot : Slot) (ev : Event) (rest : List Event) (n : ℕ) (first : Bool)
      (s : State World)
      → is_pair ev rest ≡ false
      → (ltb (size ev) n || not first) ≡ true
      → on_moved_from os fd slot ev rest n first s ≡ on_moved_out os fd slot ev s
  alone fd slot ev [] n first s h t = rw t refl
  alone fd slot ev (next ∷ rest) n first s h t =
      rw (and_false (ltb (size ev) n) (is_pair ev (next ∷ rest)) h, t) refl

  -- A "moved from" event of a cached directory whose partner does not follow, with more behind it
  -- in the buffer or on the second try, with cache checking off, unique descriptors and a kernel
  -- that removes the watches: the event is consumed, the renamed directory and all below it are
  -- gone from the cache, and no other entry has changed.
  pub process_next_inotify_event-moved_out :
      (fd : ℤ) (ev : Event) (rest : List Event) (n m : ℕ) (first : Bool) (s : State World)
      (dir : Bytes)
      → is_checked ev ≡ true
      → kind ev.mask ≡ moved_from
      → is_pair ev rest ≡ false
      → (ltb (size ev) n || not first) ≡ true
      → lookup ev.wd s.cache ≡ some dir
      → s.check_cache ≡ false
      → IsUnique s.cache
      → Removes os fd
      → Removed
          (event_path dir ev.name)
          m
          (size ev)
          fd
          s
          (process_next_inotify_event os fd ev rest n first s)
  unfolding process_next_inotify_event
  process_next_inotify_event-moved_out fd ev rest n m first s dir c k p t l off u h =
      let (j, fj, pj) = located os ev.wd dir s l in
      rw (c, fj, k, alone fd (at j) ev rest n first s p t, pj)
        (finish-Removed (event_path dir ev.name) m (size ev) fd s
          (zap_subtree os fd (event_path dir ev.name) s) off
          (zap_subtree-Gone os fd (event_path dir ev.name) m s u h))
