-- ===== src/Dtree/Reader/Laws.antt =====
-- The loop of processInotifyEvents() ends, and keeps the cache in order.
use bookcode_linux.Common.{
  ℕ, zero, suc, ◌+◌, ◌*◌, ◌<◌, ◌≤◌, ◌≡◌, refl, Bool, true, false, List, [], ◌∷◌, length, ◌==◌, Next,
  loop, loop_rule, Good, Ends, arith, if_rule,
}
use bookcode_linux.Common.Int.{ℤ, pos, negsuc}
use bookcode_linux.Dtree.Outcome.{
  Outcome, running, exited, aborted, undefined, exit_failure, Returns,
}
use bookcode_linux.Dtree.Kernel.{Kernel, State}
use bookcode_linux.Dtree.Event.{Event, Reply, process_next_inotify_event}
use bookcode_linux.Dtree.Event.Progress.{Consumed-le, Replied, process_next_inotify_event-Replied}
use bookcode_linux.Dtree.Stable.{Stable}
use bookcode_linux.Dtree.Event.Kept.{Kept, process_next_inotify_event-Kept}
use bookcode_linux.Dtree.Reader.{
  Read, events, failed, eintr, Scan, interrupted, read_more, after_event, scan_events, scan_round,
  bytes_to_come, fuel, process_inotify_events,
}

module _ (os : Kernel) (P : State os.World → Type 0) (st : Stable os P) where
  open os use {World}

  abbrev pub IsKept : ℤ × State World → Type 0
  IsKept (fd, s) = P s

  abbrev pub Ordered : Scan World → Type 0
  Ordered c = P c.state

  abbrev pub tries : Bool → ℕ
  tries true = 1
  tries false = 0

  abbrev pub measure : Scan World → ℕ
  measure c = 2 * (c.left + bytes_to_come os c.more) + 2 * length c.more + tries c.first_try

  abbrev pub Goes : Scan World → Next (Scan World) (Outcome (ℤ × State World)) → Type 0
  Goes c = Good Ordered (Returns IsKept) measure c

  one_read : (s : State World) → P s → P (record s { read_cnt = s.read_cnt + 1 })
  one_read s u = st.counts s.overflow_cnt (s.read_cnt + 1) s u

  interrupted-Goes :
      (c : Scan World) (more : List Read)
      → c.first_try ≡ true
      → length more ≤ length c.more
      → bytes_to_come os more ≤ bytes_to_come os c.more
      → Ordered c
      → Goes c (interrupted os c more)
  interrupted-Goes c more f l b u = (one_read c.state u, rw f (omega arith))

  read_more-Goes :
      (c : Scan World) (more : List Read)
      → c.first_try ≡ true
      → c.more ≡ more
      → Ordered c
      → Goes c (read_more os c more)
  read_more-Goes c [] f e u = interrupted-Goes c [] f (rw e (omega arith)) (rw e (omega arith)) u
  read_more-Goes c (failed n ∷ more) f e u =
      if_rule (Goes c) (n == eintr)
        (λ t. interrupted-Goes c more f (rw e (omega arith)) (rw e (omega arith)) u) (λ f. tt)
  read_more-Goes c (events [] ∷ more) f e u = tt
  read_more-Goes c (events (ev ∷ new) ∷ more) f e u = (one_read c.state u, rw (f, e) (omega arith))

  after_event-Goes :
      (c : Scan World) (ev : Event) (rest : List Event) (o : Outcome (Reply World))
      → 0 < c.left
      → Returns (Replied os c.fd c.first_try c.state ev rest) o
      → Returns (Kept os P st) o
      → Goes c (after_event os c o)
  after_event-Goes c ev rest (running (pos zero, fd, s)) l r k =
      absurd (omega (arith, Consumed-le ev rest 0 r))
  after_event-Goes c ev rest (running (pos (suc n), fd, s)) l r k = (k, omega arith)
  after_event-Goes c ev rest (running (negsuc n, fd, s)) l r k =
      read_more-Goes (record c { fd = fd; state = s }) c.more r.1 refl k
  after_event-Goes c ev rest (exited n) l r k = tt
  after_event-Goes c ev rest aborted l r k = tt
  after_event-Goes c ev rest undefined l r k = tt

  scan_events-Goes :
      (c : Scan World) (evs : List Event) → 0 < c.left → Ordered c → Goes c (scan_events os c evs)
  scan_events-Goes c [] l u = tt
  scan_events-Goes c (ev ∷ rest) l u =
      after_event-Goes c ev rest
        (process_next_inotify_event os c.fd ev rest c.left c.first_try c.state) l
        (process_next_inotify_event-Replied os c.fd c.first_try c.state ev rest c.left)
        (process_next_inotify_event-Kept os P st c.fd ev rest c.left c.first_try c.state u)

  scan_round-Goes : (c : Scan World) → Ordered c → Goes c (scan_round os c)
  unfolding scan_round
  scan_round-Goes c u =
      if_rule (Goes c) (c.left == 0) (λ t. u) (λ f. scan_events-Goes c c.evs (ground arith) u)

  pub process_inotify_events-Ends :
      (fd : ℤ) (r : Read) (more : List Read) (s : State World)
      → P s
      → Ends (Returns IsKept) (process_inotify_events os fd r more s)
  unfolding process_inotify_events loop
  process_inotify_events-Ends fd (failed e) more s u = (exited exit_failure, refl, tt)
  process_inotify_events-Ends fd (events []) more s u = (exited exit_failure, refl, tt)
  process_inotify_events-Ends fd (events (ev ∷ evs)) more s u =
      loop_rule Ordered (Returns IsKept) measure (scan_round os) scan_round-Goes
        (fuel os (ev ∷ evs) more) _ (omega arith) (one_read s u)
