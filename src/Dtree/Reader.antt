-- ===== src/Dtree/Reader.antt =====
-- The loop over a buffer of events: processInotifyEvents() of inotify_dtree.c.
pub mod Laws
use bookcode_linux.Common.{
  ℕ, zero, suc, ◌+◌, ◌-◌, ◌*◌, Bool, true, false, Option, none, some, List, [], ◌∷◌, ◌++◌, Bytes,
  length, leb, ◌==◌, if◌then◌else◌, Next, again, stop, loop,
}
use bookcode_linux.Common.Int.{ℤ, pos, negsuc}
use bookcode_linux.Dtree.Outcome.{Outcome, running, exited, aborted, undefined, exit_failure}
use bookcode_linux.Dtree.Kernel.{Kernel, State}
use bookcode_linux.Dtree.Event.{Event, Reply, size, process_next_inotify_event}

-- What read(2) returns on the inotify descriptor: whole events, none of them for a return of 0, or
-- -1 with `errno`.
pub data Read : Type 0 where
  events : List Event → Read
  failed : ℕ → Read

abbrev pub eintr : ℕ
eintr = 4

abbrev pub bytes : List Event → ℕ
bytes [] = 0
bytes (ev ∷ evs) = size ev + bytes evs

-- The events behind the first `k` bytes of the buffer.
abbrev pub skip : ℕ → List Event → List Event
skip k [] = []
skip k (ev ∷ evs) = if leb (size ev) k then skip (k - size ev) evs else ev ∷ evs

module _ (W : Type 0) where
  -- The loop's variables: the inotify descriptor, the events from `evp` on, the bytes from there
  -- to the end of what was read, `firstTry`, and what the further calls of read(2) will return.
  pub record Scan : Type 0 where
    pub fd : ℤ
    pub evs : List Event
    pub left : ℕ
    pub first_try : Bool
    pub more : List Read
    pub state : State W

module _ (os : Kernel) where
  open os use {World}

  abbrev pub Round : Type 0
  Round = Next (Scan World) (Outcome (ℤ × State World))

  -- The alarm interrupts the second read. The test behind it is of `errno`, not of the result, so
  -- the -1 is added to the byte count.
  abbrev pub interrupted : Scan World → List Read → Round
  interrupted c more = again (record c {
    left = c.left - 1;
    first_try = false;
    more = more;
    state = record (c.state) { read_cnt = c.state.read_cnt + 1 };
  })

  -- A "moved from" event ends the buffer: the program tries to read more behind it.
  abbrev pub read_more : Scan World → List Read → Round
  read_more c [] = interrupted c []
  read_more c (failed e ∷ more) =
      if e == eintr then interrupted c more else stop (exited exit_failure)
  read_more c (events [] ∷ more) = stop (exited exit_failure)
  read_more c (events (ev ∷ new) ∷ more) = again (record c {
    evs = c.evs ++ (ev ∷ new);
    left = c.left + bytes (ev ∷ new);
    first_try = false;
    more = more;
    state = record (c.state) { read_cnt = c.state.read_cnt + 1 };
  })

  abbrev pub after_event : Scan World → Outcome (Reply World) → Round
  after_event c (running (pos zero, fd, s)) = read_more (record c { fd = fd; state = s }) c.more
  after_event c (running (pos (suc k), fd, s)) = again (record c {
    fd = fd;
    evs = skip (suc k) c.evs;
    left = c.left - suc k;
    first_try = true;
    state = s;
  })
  after_event c (running (negsuc k, fd, s)) = read_more (record c { fd = fd; state = s }) c.more
  after_event c (exited n) = stop (exited n)
  after_event c aborted = stop aborted
  after_event c undefined = stop undefined

  abbrev pub scan_events : Scan World → List Event → Round
  scan_events c [] = stop undefined
  scan_events c (ev ∷ rest) =
      after_event c (process_next_inotify_event os c.fd ev rest c.left c.first_try c.state)

  unfoldable pub scan_round : Scan World → Round
  scan_round c = if c.left == 0 then stop (running (c.fd, c.state)) else scan_events c c.evs

  abbrev pub bytes_to_come : List Read → ℕ
  bytes_to_come [] = 0
  bytes_to_come (events evs ∷ more) = bytes evs + bytes_to_come more
  bytes_to_come (failed e ∷ more) = bytes_to_come more

  -- Each round consumes an event, or makes the one attempt to read more.
  abbrev pub fuel : List Event → List Read → ℕ
  fuel evs more = 2 * (bytes evs + bytes_to_come more) + 2 * length more + 2

  -- The first read, and the further ones; when the list is used up they are interrupted.
  unfoldable pub process_inotify_events :
      ℤ → Read → List Read → State World → Option (Outcome (ℤ × State World))
  unfolding scan_round loop
  process_inotify_events fd (failed e) more s = some (exited exit_failure)
  process_inotify_events fd (events []) more s = some (exited exit_failure)
  process_inotify_events fd (events (ev ∷ evs)) more s =
      loop (fuel (ev ∷ evs) more) scan_round (record {
        fd = fd;
        evs = ev ∷ evs;
        left = bytes (ev ∷ evs);
        first_try = true;
        more = more;
        state = record s { read_cnt = s.read_cnt + 1 };
      })
