-- ===== src/Dtree/Event/Progress.antt =====
-- What the caller of processNextInotifyEvent() may rely on: events are consumed.
use bookcode_linux.Common.{
  ℕ, ◌+◌, ◌≤◌, ◌≡◌, refl, ap, ◌∙◌, Bool, true, not, ◌&&◌, ◌||◌, List, [], ◌∷◌, ltb, if◌then◌else◌,
  arith, if_rule,
}
use bookcode_linux.Common.Int.{ℤ, pos, negsuc, minus_one}
use bookcode_linux.Dtree.Outcome.{
  Outcome, running, exited, aborted, undefined, ◌>>=◌, Returns, Returns->>=,
}
use bookcode_linux.Dtree.Cache.{event_path, rewrite_cached_paths}
use bookcode_linux.Dtree.Kernel.{Kernel, State}
use bookcode_linux.Dtree.Roots.{is_root_dir_path, zap_root_dir_path}
use bookcode_linux.Dtree.Watch.{zap_subtree, reinitialize}
use bookcode_linux.Dtree.Event.{
  Event, Reply, Kind, created, deleted, moved_from, overflow, unmounted, move_self, other, kind,
  size, is_checked, is_pair, Slot, unset, missing, at, path_at, cached_path, find_watch_checked,
  start_over, check_cache_consistency, finish, zap_if_root, clear_slot, on_renamed, finish_zap,
  on_moved_out, on_moved_from, dispatch, after_lookup, process_next_inotify_event,
  inotify_read_buf_len,
}

-- Nothing is known of the value.
abbrev pub Any {ℓ} : {A : Type ℓ} → A → Type 0
Any a = Unit

pub Returns-Any {ℓ} : {A : Type ℓ} (m : Outcome A) → Returns Any m
Returns-Any (running a) = tt
Returns-Any (exited n) = tt
Returns-Any aborted = tt
Returns-Any undefined = tt

-- To go on behind a call of which nothing need be known.
pub after {ℓ κ} :
    {A : Type ℓ} {B : Type κ} (Q : B → Type 0) (m : Outcome A) (f : A → Outcome B)
    → ((a : A) → Returns Q (f a))
    → Returns Q (m >>= f)
after Q m f h = Returns->>= Any Q m f (Returns-Any m) (λ a u. h a)

-- What the bytes consumed are: an event, which is a header of 16 bytes and its name; or the event
-- and the "moved to" event of the same rename behind it; or the whole buffer of 100 events with a
-- name of 255 bytes and a null byte, when the cache was built anew.
pub data Consumed (ev : Event) (rest : List Event) (n : ℕ) : Type 0 where
  one_event : n ≡ 16 + ev.len → Consumed ev rest n
  rename_pair :
      (next : Event) (behind : List Event)
      → rest ≡ next ∷ behind
      → is_pair ev rest ≡ true
      → n ≡ 16 + ev.len + (16 + next.len)
      → Consumed ev rest n
  whole_buffer : n ≡ 27200 → Consumed ev rest n

pub Consumed-le : (ev : Event) (rest : List Event) (n : ℕ) → Consumed ev rest n → 16 ≤ n
Consumed-le ev rest n (one_event e) = omega arith
Consumed-le ev rest n (rename_pair next behind e p h) = omega arith
Consumed-le ev rest n (whole_buffer e) = omega arith

module _ (os : Kernel) (fd : ℤ) (first : Bool) (s : State os.World) (ev : Event)
    (rest : List Event) where
  open os use {World}

  -- Bytes are consumed, or nothing has happened and this was the first try.
  abbrev pub Replied : Reply World → Type 0
  Replied (pos n, fd', s') = Consumed ev rest n
  Replied (negsuc k, fd', s') = (k ≡ 0) × (first ≡ true) × (fd' ≡ fd) × (s' ≡ s)

  finish-Replied :
      (n : ℕ) (fd' : ℤ) (s' : State World)
      → Consumed ev rest n
      → Returns Replied (finish os n fd' s')
  finish-Replied n fd' s' h =
      if_rule (Returns Replied) s'.check_cache
        (λ t.
          after Replied (check_cache_consistency os s'.world s'.cache)
            (λ _. running (pos n, fd', s')) (λ a. h))
        (λ f. h)

  start_over-Replied : (fd' : ℤ) (s' : State World) → Returns Replied (start_over os fd' s')
  start_over-Replied fd' s' =
      after Replied (reinitialize os fd' s') (λ r. running (pos inotify_read_buf_len, r.0, r.1))
        (λ r. whole_buffer refl)

  one-Replied : (fd' : ℤ) (s' : State World) → Returns Replied (finish os (size ev) fd' s')
  one-Replied fd' s' = finish-Replied (size ev) fd' s' (one_event refl)

  finish_zap-Replied :
      (fd' : ℤ) (r : ℤ × State World) → Returns Replied (finish_zap os (size ev) fd' r)
  finish_zap-Replied fd' (pos k, s') = one-Replied fd' s'
  finish_zap-Replied fd' (negsuc k, s') = start_over-Replied fd' s'

  moved_out-Replied :
      (slot : Slot) (s' : State World) → Returns Replied (on_moved_out os fd slot ev s')
  moved_out-Replied slot s' =
      after Replied (cached_path slot s'.cache)
        (λ dir. finish_zap os (size ev) fd (zap_subtree os fd (event_path dir ev.name) s'))
        (λ dir. finish_zap-Replied fd (zap_subtree os fd (event_path dir ev.name) s'))

  renamed-Replied :
      (slot k : Slot) (next : Event) (behind : List Event)
      → rest ≡ next ∷ behind
      → is_pair ev rest ≡ true
      → Returns Replied (on_renamed os fd slot ev next k s)
  renamed-Replied slot unset next behind e p = tt
  renamed-Replied slot missing next behind e p = start_over-Replied fd s
  renamed-Replied slot (at k) next behind e p = after Replied (cached_path slot s.cache) _ (λ old.
      after Replied (path_at s.cache k) _ (λ new.
        finish-Replied (size ev + size next) fd
          (record s { cache = rewrite_cached_paths old ev.name new next.name s.cache })
          (rename_pair next behind e p refl)))

  -- Without a matching event: the directory is zapped, or the caller is asked to read more.
  alone-Replied :
      (slot : Slot) (n : ℕ)
      → Returns Replied (
          if ltb (size ev) n || not first
          then on_moved_out os fd slot ev s
          else running (minus_one, fd, s))
  alone-Replied slot n =
      if_rule (Returns Replied) (ltb (size ev) n || not first) (λ t. moved_out-Replied slot s)
        (λ f. (refl, ground arith, refl, refl))

  moved_from-Replied :
      (slot : Slot) (behind : List Event) (n : ℕ)
      → rest ≡ behind
      → Returns Replied (on_moved_from os fd slot ev behind n first s)
  moved_from-Replied slot [] n e = alone-Replied slot n
  moved_from-Replied slot (next ∷ behind) n e =
      if_rule (Returns Replied) (ltb (size ev) n && is_pair ev (next ∷ behind))
        (λ t.
          let p : is_pair ev (next ∷ behind) ≡ true = ground arith in
          after Replied (find_watch_checked os next.wd s) _
            (λ k. renamed-Replied slot k next behind e (ap (is_pair ev) e ∙ p)))
        (λ f. alone-Replied slot n)

  dispatch-Replied :
      (k : Kind) (slot : Slot) (n : ℕ) → Returns Replied (dispatch os k fd slot ev rest n first s)
  dispatch-Replied created slot n =
      after Replied (cached_path slot s.cache) _
        (λ dir. after Replied _ (finish os (size ev) fd) (λ s'. one-Replied fd s'))
  dispatch-Replied deleted slot n = after Replied (cached_path slot s.cache) _ (λ path.
      after Replied (zap_if_root os path s >>= clear_slot os slot) (finish os (size ev) fd)
        (λ s'. one-Replied fd s'))
  dispatch-Replied moved_from slot n = moved_from-Replied slot rest n refl
  dispatch-Replied overflow slot n =
      after Replied (reinitialize os fd (record s { overflow_cnt = s.overflow_cnt + 1 })) _
        (λ r. finish-Replied inotify_read_buf_len r.0 r.1 (whole_buffer refl))
  dispatch-Replied unmounted slot n =
      after Replied (clear_slot os slot s) _ (λ s'. one-Replied fd s')
  dispatch-Replied move_self slot n = after Replied (cached_path slot s.cache) _ (λ path.
      if_rule (Returns Replied) (is_root_dir_path path s.roots)
        (λ t.
          after Replied (zap_root_dir_path os path s) _
            (λ s'. finish_zap-Replied fd (zap_subtree os fd path s')))
        (λ f. one-Replied fd s))
  dispatch-Replied other slot n = one-Replied fd s

  looked_up-Replied :
      (slot : Slot) (n : ℕ) → Returns Replied (after_lookup os slot fd ev rest n first s)
  looked_up-Replied missing n = start_over-Replied fd s
  looked_up-Replied unset n = dispatch-Replied (kind ev.mask) unset n
  looked_up-Replied (at j) n = dispatch-Replied (kind ev.mask) (at j) n

  -- When `processNextInotifyEvent` returns, it has consumed the header and the name of one event;
  -- or of an event and the "moved to" event with its cookie behind it; or the whole buffer; or it
  -- asks the caller to read more, which it does on the first try only, and then nothing has
  -- changed.
  pub process_next_inotify_event-Replied :
      (n : ℕ) → Returns Replied (process_next_inotify_event os fd ev rest n first s)
  unfolding process_next_inotify_event
  process_next_inotify_event-Replied n =
      if_rule (Returns Replied) (is_checked ev)
        (λ t. after Replied (find_watch_checked os ev.wd s) _ (λ slot. looked_up-Replied slot n))
        (λ f. looked_up-Replied unset n)
