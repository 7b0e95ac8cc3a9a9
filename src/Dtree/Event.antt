-- ===== src/Dtree/Event.antt =====
-- One inotify event: processNextInotifyEvent() of inotify_dtree.c.
pub mod Progress
pub mod Kept
pub mod Rename
pub mod MovedOut
use bookcode_linux.Common.{
  ℕ, ◌+◌, ◌*◌, ◌/◌, ◌%◌, Bool, true, false, not, ◌&&◌, ◌||◌, Option, none, some, List, [], ◌∷◌,
  Bytes, get_elem?, ltb, ◌==◌, if◌then◌else◌,
}
use bookcode_linux.Common.Int.{ℤ, pos, negsuc, is_nonneg, minus_one, eq_ℤ}
use bookcode_linux.Dtree.Outcome.{Outcome, running, exited, aborted, undefined, exit_failure, ◌>>=◌}
use bookcode_linux.Dtree.Cache.{
  Watch, Cache, find_watch, is_used, event_path, pathname_in_cache, mark_cache_slot_empty,
  rewrite_cached_paths,
}
use bookcode_linux.Dtree.Kernel.{Kernel, State, Stat}
use bookcode_linux.Dtree.Roots.{is_root_dir_path, zap_root_dir_path}
use bookcode_linux.Dtree.Watch.{
  in_moved_from, in_moved_to, in_create, in_delete_self, in_move_self, watch_subtree, zap_subtree,
  reinitialize,
}

-- `struct inotify_event`; `len` is the padded length of the name in the buffer.
pub record Event : Type 0 where
  pub wd : ℤ
  pub mask : ℕ
  pub cookie : ℕ
  pub len : ℕ
  pub name : Bytes

abbrev pub in_unmount : ℕ
in_unmount = 0x2000

abbrev pub in_q_overflow : ℕ
in_q_overflow = 0x4000

abbrev pub in_ignored : ℕ
in_ignored = 0x8000

abbrev pub in_isdir : ℕ
in_isdir = 0x40000000

-- `mask & bit` for a single bit.
abbrev pub has : ℕ → ℕ → Bool
has mask bit = mask / bit % 2 == 1

-- `sizeof(struct inotify_event)`, and 100 times it with a name of NAME_MAX bytes.
abbrev pub event_size : ℕ
event_size = 16

abbrev pub inotify_read_buf_len : ℕ
inotify_read_buf_len = 100 * (event_size + 255 + 1)

-- `evLen`
abbrev pub size : Event → ℕ
size ev = event_size + ev.len

-- The number of bytes consumed, or -1 for "read more", with the inotify descriptor and the state.
abbrev pub Reply : Type 0 → Type 0
Reply W = ℤ × ℤ × State W

-- The branch that an event takes, from its mask alone.
pub data Kind : Type 0 where
  created deleted moved_from overflow unmounted move_self other : Kind

unfoldable pub kind : ℕ → Kind
kind mask =
    if has mask in_isdir && (has mask in_create || has mask in_moved_to)
    then created
    else if has mask in_delete_self
    then deleted
    else if has mask in_moved_from && has mask in_isdir
    then moved_from
    else if has mask in_q_overflow
    then overflow
    else if has mask in_unmount
    then unmounted
    else if has mask in_move_self
    then move_self
    else other

-- `ev->wd != -1 && !(ev->mask & IN_IGNORED)`
abbrev pub is_checked : Event → Bool
is_checked ev = not (eq_ℤ ev.wd minus_one) && not (has ev.mask in_ignored)

-- `evCacheSlot`: no value yet, -1, or a slot.
pub data Slot : Type 0 where
  unset : Slot
  missing : Slot
  at : ℕ → Slot

abbrev pub slot_of : ℤ → Slot
slot_of (pos j) = at j
slot_of (negsuc j) = missing

-- The next event matches this "moved from" event.
abbrev pub is_pair : Event → List Event → Bool
is_pair ev [] = false
is_pair ev (next ∷ rest) = has next.mask in_moved_to && next.cookie == ev.cookie

abbrev pub path_at : Cache → ℕ → Outcome Bytes
path_at c j = elim (get_elem? c j) [ none ↦ undefined | some x ↦ running x.path ]

-- `wlCache[evCacheSlot].path`
abbrev pub cached_path : Slot → Cache → Outcome Bytes
cached_path (at j) c = path_at c j
cached_path unset c = undefined
cached_path missing c = undefined

module _ (os : Kernel) where
  open os use {World, lstat}

  -- `findWatchChecked`; the slot is the one of `find_watch`.
  pub find_watch_checked : ℤ → State World → Outcome Slot
  find_watch_checked wd s = elim (slot_of (find_watch wd s.cache)) [
    | at j ↦ running (at j)
    | _ ↦ if s.abort_on_problem then aborted else running missing
  ]

  -- The cache is rebuilt, and the rest of the buffer dropped.
  abbrev pub start_over : ℤ → State World → Outcome (Reply World)
  start_over fd s = reinitialize os fd s >>= λ r. running (pos inotify_read_buf_len, r.0, r.1)

  -- What `checkCacheConsistency` does to the program: it ends if a cached path is no directory.
  pub check_cache_consistency : World → Cache → Outcome (Unit {0})
  check_cache_consistency w [] = running tt
  check_cache_consistency w (x ∷ c) =
      let rest = check_cache_consistency w c in
      if is_used x
      then (elim (lstat w x.path) [
        | none ↦ rest
        | some st ↦ elim st.is_dir [ true ↦ rest | false ↦ exited exit_failure ]
      ])
      else rest

  -- The end of the function, for the branches that reach it.
  abbrev pub finish : ℕ → ℤ → State World → Outcome (Reply World)
  finish n fd s =
      if s.check_cache
      then (check_cache_consistency s.world s.cache >>= λ _. running (pos n, fd, s))
      else running (pos n, fd, s)

  abbrev pub on_created : ℤ → Slot → Event → State World → Outcome (Reply World)
  on_created fd slot ev s = cached_path slot s.cache >>= λ dir.
      (if pathname_in_cache (event_path dir ev.name) s.cache
        then running s
        else watch_subtree os fd (event_path dir ev.name) s)
      >>= finish (size ev) fd

  abbrev pub zap_if_root : Bytes → State World → Outcome (State World)
  zap_if_root path s =
      if is_root_dir_path path s.roots then zap_root_dir_path os path s else running s

  abbrev pub clear_slot : Slot → State World → Outcome (State World)
  clear_slot (at j) s = running (record s { cache = mark_cache_slot_empty j s.cache })
  clear_slot unset s = undefined
  clear_slot missing s = undefined

  abbrev pub on_deleted : ℤ → Slot → Event → State World → Outcome (Reply World)
  on_deleted fd slot ev s = cached_path slot s.cache >>= λ path.
      zap_if_root path s >>= clear_slot slot >>= finish (size ev) fd

  -- An intra-tree rename: both events are consumed.
  abbrev pub on_renamed : ℤ → Slot → Event → Event → Slot → State World → Outcome (Reply World)
  on_renamed fd slot ev next (at k) s = cached_path slot s.cache >>= λ old.
      path_at s.cache k >>= λ new.
      finish (size ev + size next) fd
        (record s { cache = rewrite_cached_paths old ev.name new next.name s.cache })
  on_renamed fd slot ev next missing s = start_over fd s
  on_renamed fd slot ev next unset s = undefined

  abbrev pub finish_zap : ℕ → ℤ → ℤ × State World → Outcome (Reply World)
  finish_zap n fd (pos cnt, s) = finish n fd s
  finish_zap n fd (negsuc k, s) = start_over fd s

  -- A rename out of the monitored trees.
  abbrev pub on_moved_out : ℤ → Slot → Event → State World → Outcome (Reply World)
  on_moved_out fd slot ev s = cached_path slot s.cache >>= λ dir.
      finish_zap (size ev) fd (zap_subtree os fd (event_path dir ev.name) s)

  -- `buf_size` is the number of bytes in the buffer, this event and the following ones included.
  abbrev pub on_moved_from :
      ℤ → Slot → Event → List Event → ℕ → Bool → State World → Outcome (Reply World)
  on_moved_from fd slot ev [] buf_size first_try s =
      if ltb (size ev) buf_size || not first_try
      then on_moved_out fd slot ev s
      else running (minus_one, fd, s)
  on_moved_from fd slot ev (next ∷ rest) buf_size first_try s =
      if ltb (size ev) buf_size && is_pair ev (next ∷ rest)
      then (find_watch_checked next.wd s >>= λ k. on_renamed fd slot ev next k s)
      else if ltb (size ev) buf_size || not first_try
      then on_moved_out fd slot ev s
      else running (minus_one, fd, s)

  abbrev pub on_overflow : ℤ → State World → Outcome (Reply World)
  on_overflow fd s = reinitialize os fd (record s { overflow_cnt = s.overflow_cnt + 1 }) >>= λ r.
      finish inotify_read_buf_len r.0 r.1

  abbrev pub on_unmounted : ℤ → Slot → Event → State World → Outcome (Reply World)
  on_unmounted fd slot ev s = clear_slot slot s >>= finish (size ev) fd

  abbrev pub on_move_self : ℤ → Slot → Event → State World → Outcome (Reply World)
  on_move_self fd slot ev s = cached_path slot s.cache >>= λ path.
      if is_root_dir_path path s.roots
      then (zap_root_dir_path os path s >>= λ s'.
          finish_zap (size ev) fd (zap_subtree os fd path s'))
      else finish (size ev) fd s

  abbrev pub dispatch :
      Kind → ℤ → Slot → Event → List Event → ℕ → Bool → State World → Outcome (Reply World)
  dispatch created fd slot ev rest n first s = on_created fd slot ev s
  dispatch deleted fd slot ev rest n first s = on_deleted fd slot ev s
  dispatch moved_from fd slot ev rest n first s = on_moved_from fd slot ev rest n first s
  dispatch overflow fd slot ev rest n first s = on_overflow fd s
  dispatch unmounted fd slot ev rest n first s = on_unmounted fd slot ev s
  dispatch move_self fd slot ev rest n first s = on_move_self fd slot ev s
  dispatch other fd slot ev rest n first s = finish (size ev) fd s

  abbrev pub after_lookup :
      Slot → ℤ → Event → List Event → ℕ → Bool → State World → Outcome (Reply World)
  after_lookup missing fd ev rest n first s = start_over fd s
  after_lookup unset fd ev rest n first s = dispatch (kind ev.mask) fd unset ev rest n first s
  after_lookup (at j) fd ev rest n first s = dispatch (kind ev.mask) fd (at j) ev rest n first s

  -- The event at the start of the buffer, those behind it, the bytes in the buffer, `firstTry`.
  pub process_next_inotify_event :
      ℤ → Event → List Event → ℕ → Bool → State World → Outcome (Reply World)
  process_next_inotify_event fd ev rest n first s =
      if is_checked ev
      then (find_watch_checked ev.wd s >>= λ slot. after_lookup slot fd ev rest n first s)
      else after_lookup unset fd ev rest n first s
