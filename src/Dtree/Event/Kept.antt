-- ===== src/Dtree/Event/Kept.antt =====
-- What the operations keep, every event keeps.
use bookcode_linux.Common.{
  ℕ, ◌+◌, Bool, true, false, ◌&&◌, List, [], ◌∷◌, Bytes, ltb, if◌then◌else◌, if_rule,
}
use bookcode_linux.Common.Int.{ℤ, pos, negsuc, minus_one}
use bookcode_linux.Dtree.Outcome.{running, ◌>>=◌, Returns, Returns->>=}
use bookcode_linux.Dtree.Cache.{event_path, pathname_in_cache, rewrite_cached_paths}
use bookcode_linux.Dtree.Kernel.{Kernel, State}
use bookcode_linux.Dtree.Roots.{is_root_dir_path, zap_root_dir_path}
use bookcode_linux.Dtree.Watch.{zap_subtree, reinitialize}
use bookcode_linux.Dtree.Stable.{Stable}
use bookcode_linux.Dtree.Event.{
  Event, Reply, Kind, created, deleted, moved_from, overflow, unmounted, move_self, other, kind,
  size, is_checked, is_pair, Slot, unset, missing, at, path_at, cached_path, find_watch_checked,
  start_over, check_cache_consistency, finish, zap_if_root, clear_slot, on_renamed, finish_zap,
  on_moved_out, on_moved_from, dispatch, after_lookup, process_next_inotify_event,
  inotify_read_buf_len,
}
use bookcode_linux.Dtree.Event.Progress.{after}

module _ (os : Kernel) (P : State os.World → Type 0) (st : Stable os P) where
  open os use {World}

  abbrev pub Kept : Reply World → Type 0
  Kept (n, fd, s) = P s

  finish-Kept : (n : ℕ) (fd : ℤ) (s : State World) → P s → Returns Kept (finish os n fd s)
  finish-Kept n fd s u =
      if_rule (Returns Kept) s.check_cache
        (λ t.
          after Kept (check_cache_consistency os s.world s.cache) (λ _. running (pos n, fd, s))
            (λ a. u))
        (λ f. u)

  start_over-Kept : (fd : ℤ) (s : State World) → P s → Returns Kept (start_over os fd s)
  start_over-Kept fd s u =
      Returns->>= (λ (r : ℤ × State World). P r.1) Kept (reinitialize os fd s) _
        (st.rebuilds fd s u) (λ r u. u)

  finish_zap-Kept :
      (n : ℕ) (fd : ℤ) (r : ℤ × State World) → P r.1 → Returns Kept (finish_zap os n fd r)
  finish_zap-Kept n fd (pos k, s) u = finish-Kept n fd s u
  finish_zap-Kept n fd (negsuc k, s) u = start_over-Kept fd s u

  zap_if_root-P : (p : Bytes) (s : State World) → P s → Returns P (zap_if_root os p s)
  zap_if_root-P p s u =
      if_rule (Returns P) (is_root_dir_path p s.roots) (λ t. st.zaps_root p s u) (λ f. u)

  clear_slot-P : (slot : Slot) (s : State World) → P s → Returns P (clear_slot os slot s)
  clear_slot-P (at j) s u = st.clears j s u
  clear_slot-P unset s u = tt
  clear_slot-P missing s u = tt

  moved_out-Kept :
      (fd : ℤ) (slot : Slot) (ev : Event) (s : State World)
      → P s
      → Returns Kept (on_moved_out os fd slot ev s)
  moved_out-Kept fd slot ev s u = after Kept (cached_path slot s.cache) _ (λ dir.
      finish_zap-Kept (size ev) fd (zap_subtree os fd (event_path dir ev.name) s)
        (st.zaps fd (event_path dir ev.name) s u))

  renamed-Kept :
      (fd : ℤ) (slot k : Slot) (ev next : Event) (s : State World)
      → P s
      → Returns Kept (on_renamed os fd slot ev next k s)
  renamed-Kept fd slot unset ev next s u = tt
  renamed-Kept fd slot missing ev next s u = start_over-Kept fd s u
  renamed-Kept fd slot (at k) ev next s u = after Kept (cached_path slot s.cache) _ (λ old.
      after Kept (path_at s.cache k) _ (λ new.
        finish-Kept (size ev + size next) fd
          (record s { cache = rewrite_cached_paths old ev.name new next.name s.cache })
          (st.rewrites old ev.name new next.name s u)))

  alone-Kept :
      (fd : ℤ) (slot : Slot) (ev : Event) (b : Bool) (s : State World)
      → P s
      → Returns Kept (if b then on_moved_out os fd slot ev s else running (minus_one, fd, s))
  alone-Kept fd slot ev true s u = moved_out-Kept fd slot ev s u
  alone-Kept fd slot ev false s u = u

  moved_from-Kept :
      (fd : ℤ) (slot : Slot) (ev : Event) (rest : List Event) (n : ℕ) (first : Bool)
      (s : State World)
      → P s
      → Returns Kept (on_moved_from os fd slot ev rest n first s)
  moved_from-Kept fd slot ev [] n first s u = alone-Kept fd slot ev _ s u
  moved_from-Kept fd slot ev (next ∷ rest) n first s u =
      if_rule (Returns Kept) (ltb (size ev) n && is_pair ev (next ∷ rest))
        (λ t.
          after Kept (find_watch_checked os next.wd s) _ (λ k. renamed-Kept fd slot k ev next s u))
        (λ f. alone-Kept fd slot ev _ s u)

  dispatch-Kept :
      (k : Kind) (fd : ℤ) (slot : Slot) (ev : Event) (rest : List Event) (n : ℕ) (first : Bool)
      (s : State World)
      → P s
      → Returns Kept (dispatch os k fd slot ev rest n first s)
  dispatch-Kept created fd slot ev rest n first s u =
      after Kept (cached_path slot s.cache) _ (λ dir.
        Returns->>= P Kept _ (finish os (size ev) fd)
          (if_rule (Returns P) (pathname_in_cache (event_path dir ev.name) s.cache) (λ t. u)
            (λ f. st.watches fd (event_path dir ev.name) s u))
          (finish-Kept (size ev) fd))
  dispatch-Kept deleted fd slot ev rest n first s u =
      after Kept (cached_path slot s.cache) _ (λ path.
        Returns->>= P Kept (zap_if_root os path s >>= clear_slot os slot) (finish os (size ev) fd)
          (Returns->>= P P (zap_if_root os path s) (clear_slot os slot) (zap_if_root-P path s u)
            (clear_slot-P slot))
          (finish-Kept (size ev) fd))
  dispatch-Kept moved_from fd slot ev rest n first s u = moved_from-Kept fd slot ev rest n first s u
  dispatch-Kept overflow fd slot ev rest n first s u =
      Returns->>= (λ (r : ℤ × State World). P r.1) Kept
        (reinitialize os fd (record s { overflow_cnt = s.overflow_cnt + 1 })) _
        (st.rebuilds fd (record s { overflow_cnt = s.overflow_cnt + 1 })
          (st.counts (s.overflow_cnt + 1) s.read_cnt s u))
        (λ r. finish-Kept inotify_read_buf_len r.0 r.1)
  dispatch-Kept unmounted fd slot ev rest n first s u =
      Returns->>= P Kept (clear_slot os slot s) _ (clear_slot-P slot s u) (finish-Kept (size ev) fd)
  dispatch-Kept move_self fd slot ev rest n first s u =
      after Kept (cached_path slot s.cache) _ (λ path.
        if_rule (Returns Kept) (is_root_dir_path path s.roots)
          (λ t. Returns->>= P Kept (zap_root_dir_path os path s) _ (st.zaps_root path s u) (λ s' u'.
            finish_zap-Kept (size ev) fd (zap_subtree os fd path s') (st.zaps fd path s' u')))
          (λ f. finish-Kept (size ev) fd s u))
  dispatch-Kept other fd slot ev rest n first s u = finish-Kept (size ev) fd s u

  looked_up-Kept :
      (slot : Slot) (fd : ℤ) (ev : Event) (rest : List Event) (n : ℕ) (first : Bool)
      (s : State World)
      → P s
      → Returns Kept (after_lookup os slot fd ev rest n first s)
  looked_up-Kept missing fd ev rest n first s u = start_over-Kept fd s u
  looked_up-Kept unset fd ev rest n first s u =
      dispatch-Kept (kind ev.mask) fd unset ev rest n first s u
  looked_up-Kept (at j) fd ev rest n first s u =
      dispatch-Kept (kind ev.mask) fd (at j) ev rest n first s u

  -- Every event keeps the invariant, whatever its contents are and whatever the kernel answers.
  pub process_next_inotify_event-Kept :
      (fd : ℤ) (ev : Event) (rest : List Event) (n : ℕ) (first : Bool) (s : State World)
      → P s
      → Returns Kept (process_next_inotify_event os fd ev rest n first s)
  unfolding process_next_inotify_event
  process_next_inotify_event-Kept fd ev rest n first s u =
      if_rule (Returns Kept) (is_checked ev)
        (λ t.
          after Kept (find_watch_checked os ev.wd s) _
            (λ slot. looked_up-Kept slot fd ev rest n first s u))
        (λ f. looked_up-Kept unset fd ev rest n first s u)
