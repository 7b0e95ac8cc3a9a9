-- ===== src/Dtree/Program.antt =====
-- The program: main() of inotify_dtree.c, as the states that it reaches.
pub mod Laws
mod Tests
use bookcode_linux.Common.{ℕ, Bool, Option, none, some, List, [], ◌∷◌, Bytes, ◌≡◌}
use bookcode_linux.Common.Int.{ℤ, minus_one}
use bookcode_linux.Dtree.Outcome.{Outcome, running, exited, exit_failure, ◌>>=◌}
use bookcode_linux.Dtree.Kernel.{Kernel, State}
use bookcode_linux.Dtree.Roots.{copy_root_dir_paths}
use bookcode_linux.Dtree.Watch.{reinitialize}
use bookcode_linux.Dtree.Reader.{Read, process_inotify_events}
use bookcode_linux.Dtree.Command.{execute_command}

-- What getopt(3) finds on the command line, without the log file and the buffer size.
pub record Options : Type 0 where
  pub check_cache : Bool
  pub dump_cache : Bool
  pub abort_on_problem : Bool
  pub verbose_mask : ℤ

module _ (os : Kernel) where
  open os use {World}

  -- The global variables behind the loop over the options.
  unfoldable pub initial_state : Options → World → State World
  initial_state o w = record {
    world = w;
    cache = [];
    roots = [];
    ignored_roots = 0;
    dir_cnt = 0;
    reinit_cnt = 0;
    overflow_cnt = 0;
    read_cnt = 0;
    check_cache = o.check_cache;
    dump_cache = o.dump_cache;
    abort_on_problem = o.abort_on_problem;
    verbose_mask = o.verbose_mask;
  }

  -- `main` up to its loop.
  unfoldable pub start : Options → List Bytes → World → Outcome (ℤ × State World)
  start o [] w = exited exit_failure
  start o (p ∷ ps) w =
      copy_root_dir_paths os (p ∷ ps) (initial_state o w) >>= reinitialize os minus_one

  -- The loop: a command, a buffer of events, or a change of the machine by others meanwhile.
  pub data Reach (o : Options) (argv : List Bytes) : ℤ × State World → Type 0 where
    started : (w : World) (r : ℤ × State World) → start o argv w ≡ running r → Reach o argv r
    elsewhere :
        (fd : ℤ) (s : State World) (w : World)
        → Reach o argv (fd, s)
        → Reach o argv (fd, record s { world = w })
    command :
        (fd : ℤ) (s : State World) (line : Bytes) (r : ℤ × State World)
        → Reach o argv (fd, s)
        → execute_command os line fd s ≡ running r
        → Reach o argv r
    buffer :
        (fd : ℤ) (s : State World) (first : Read) (more : List Read) (r : ℤ × State World)
        → Reach o argv (fd, s)
        → process_inotify_events os fd first more s ≡ some (running r)
        → Reach o argv r
