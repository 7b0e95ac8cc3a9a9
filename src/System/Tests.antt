-- ===== src/System/Tests.antt =====
-- Runs of fine_system().
use bookcode_linux.Common.{
  ◌≡◌, refl, some, none, false, [], ◌∷◌, codes, Ends, Option, ◌==◌, if◌then◌else◌,
}
use bookcode_linux.Common.Int.{ℤ, pos}
use bookcode_linux.Io.Posix.{eintr}
use bookcode_linux.System.{
  Process, function, sig_dfl, status, error, forks, fork_fails, fine_system, run_command,
  wait_child, Result,
}
use bookcode_linux.System.Laws.{Called, Unforked, Asked, Unanswered, interrupted, fine_system_lem}

-- A caller that catches SIGINT.
abbrev shell_like : Process
shell_like = record {
  action = λ s. record {
    sa_handler = if s == 2 then function 7 else sig_dfl;
    sa_flags = 0;
    sa_mask = [];
  };
  blocked = λ s. false;
  errno = 0;
}

abbrev returned : Option Result → ℤ
returned none = pos 255
returned (some r) = r.ret

interrupted_once :
    returned
      (fine_system (some (codes "ls")) (forks (error eintr ∷ status (pos 256) ∷ [])) 5 shell_like)
    ≡ pos 256
unfolding fine_system run_command wait_child
interrupted_once = refl

-- Without a command: whether `:` succeeds.
available : returned (fine_system none (forks (status (pos 0) ∷ [])) 5 shell_like) ≡ pos 1
unfolding fine_system run_command wait_child
available = refl

fine_system_lem_example :
    Ends
      (Called shell_like (codes "ls") (status (pos 256)))
      (fine_system (some (codes "ls")) (forks (interrupted 2 (status (pos 256)) [])) 5 shell_like)
    × Ends (Unforked shell_like 11) (fine_system (some (codes "ls")) (fork_fails 11) 5 shell_like)
    × Ends
        (Asked shell_like (status (pos 256)))
        (fine_system none (forks (interrupted 2 (status (pos 256)) [])) 5 shell_like)
    × Ends (Unanswered shell_like 11) (fine_system none (fork_fails 11) 5 shell_like)
fine_system_lem_example = fine_system_lem shell_like (codes "ls") 5 11 2 (status (pos 256)) [] tt
