-- ===== src/System.antt =====
-- fine_system() of TLPI/ch24-procexec/system.cpp, an implementation of system(3).
pub mod Laws
mod Tests
use bookcode_linux.Common.{
  ℕ, Option, none, some, Bool, true, false, ◌||◌, List, [], ◌∷◌, Bytes, codes, ◌==◌, if◌then◌else◌,
}
use bookcode_linux.Common.Int.{ℤ, pos, minus_one, eq_ℤ}
use bookcode_linux.Io.Posix.{eintr}

abbrev pub sigint : ℕ
sigint = 2

abbrev pub sigquit : ℕ
sigquit = 3

abbrev pub sigchld : ℕ
sigchld = 17

-- `sa_handler`: SIG_DFL, SIG_IGN or a function.
pub data Handler : Type 0 where
  sig_dfl : Handler
  sig_ign : Handler
  function : ℕ → Handler

-- `struct sigaction`
pub record Sigaction : Type 0 where
  pub sa_handler : Handler
  pub sa_flags : ℕ
  pub sa_mask : List ℕ

-- A process: its action for each signal, which signals are blocked, and `errno`.
pub record Process : Type 0 where
  pub action : ℕ → Sigaction
  pub blocked : ℕ → Bool
  pub errno : ℕ

-- sigaction(2), with the action that there was.
abbrev pub sigaction : ℕ → Sigaction → Process → Process × Sigaction
sigaction sig act p =
    (record p { action = λ s. if s == sig then act else p.action s }, p.action sig)

-- sigprocmask(2) with SIG_BLOCK for one signal, and with SIG_SETMASK.
abbrev pub block : ℕ → Process → Process × (ℕ → Bool)
block sig p = (record p { blocked = λ s. s == sig || p.blocked s }, p.blocked)

abbrev pub set_mask : (ℕ → Bool) → Process → Process
set_mask mask p = record p { blocked = mask }

abbrev pub sa_ignore : Sigaction
sa_ignore = record { sa_handler = sig_ign; sa_flags = 0; sa_mask = [] }

abbrev pub sa_default : Sigaction
sa_default = record { sa_handler = sig_dfl; sa_flags = 0; sa_mask = [] }

-- What steps (2) and (3) save.
pub record Saved : Type 0 where
  pub orig_mask : ℕ → Bool
  pub orig_int : Sigaction
  pub orig_quit : Sigaction

-- Steps (2) and (3).
abbrev pub shield : Process → Process × Saved
shield p =
    let (p1, mask) = block sigchld p in
    let (p2, int) = sigaction sigint sa_ignore p1 in
    let (p3, quit) = sigaction sigquit sa_ignore p2 in
    (p3, record { orig_mask = mask; orig_int = int; orig_quit = quit })

-- Step (4) for one signal.
abbrev pub reset : ℕ → Handler → Process → Process
reset sig sig_ign p = p
reset sig sig_dfl p = (sigaction sig sa_default p).0
reset sig (function f) p = (sigaction sig sa_default p).0

-- Steps (4) and (5), in the child.
abbrev pub child : Saved → Process → Process
child saved p =
    set_mask saved.orig_mask
      (reset sigquit saved.orig_quit.sa_handler (reset sigint saved.orig_int.sa_handler p))

-- Steps (8) to (10); the calls that restore the signals make `touched` of `errno`.
abbrev pub restore : Saved → ℕ → Process → Process
restore saved touched p =
    let saved_errno = p.errno in
    let p1 = set_mask saved.orig_mask p in
    let p2 = (sigaction sigint saved.orig_int p1).0 in
    let p3 = (sigaction sigquit saved.orig_quit p2).0 in
    record (record p3 { errno = touched }) { errno = saved_errno }

-- execve(2) resets the signals that are caught to the default.
abbrev pub exec_handler : Handler → Handler
exec_handler sig_dfl = sig_dfl
exec_handler sig_ign = sig_ign
exec_handler (function f) = sig_dfl

-- A program that a process executes: how it finds the signals, and its arguments.
pub record Program : Type 0 where
  pub handler : ℕ → Handler
  pub blocked : ℕ → Bool
  pub argv : List Bytes

abbrev pub exec : Process → List Bytes → Program
exec p argv = record {
  handler = λ s. exec_handler (p.action s).sa_handler;
  blocked = p.blocked;
  argv = argv;
}

-- What waitpid(2) returns: the status of the child, or -1 with an `errno`.
pub data Wait : Type 0 where
  status : ℤ → Wait
  error : ℕ → Wait

-- Step (7), from a value of `errno`; `none` is a child that goes on.
unfoldable pub wait_child : ℕ → List Wait → Option (ℤ × ℕ)
wait_child errno [] = none
wait_child errno (status n ∷ waits) = some (n, errno)
wait_child errno (error e ∷ waits) =
    let rest = wait_child e waits in if e == eintr then rest else some (minus_one, e)

-- fork(2): an `errno`, or a child, for which the parent waits.
pub data Fork : Type 0 where
  fork_fails : ℕ → Fork
  forks : List Wait → Fork

-- What a call leaves: the value returned, the caller, how the caller was while it waited, and the
-- shell that the child executes, if there is a child.
pub record Result : Type 0 where
  pub ret : ℤ
  pub caller : Process
  pub waiting : Process
  pub shell : Option Program

abbrev pub returned : Saved → ℕ → Process → Program → Option (ℤ × ℕ) → Option Result
returned saved touched p shell none = none
returned saved touched p shell (some (n, errno)) = some (record {
  ret = n;
  caller = restore saved touched (record p { errno = errno });
  waiting = p;
  shell = some shell;
})

abbrev pub after_fork : Saved → ℕ → Process → Bytes → Fork → Option Result
after_fork saved touched p command (fork_fails e) = some (record {
  ret = minus_one;
  caller = restore saved touched (record p { errno = e });
  waiting = p;
  shell = none;
})
after_fork saved touched p command (forks waits) =
    returned saved touched p (exec (child saved p) (codes "sh" ∷ codes "-c" ∷ command ∷ []))
      (wait_child p.errno waits)

unfoldable pub run_command : Bytes → Fork → ℕ → Process → Option Result
unfolding wait_child
run_command command fork touched p =
    let (p', saved) = shield p in after_fork saved touched p' command fork

-- Without a command, whether a shell is available.
abbrev pub is_zero : Option Result → Option Result
is_zero none = none
is_zero (some r) = some (record r { ret = if eq_ℤ r.ret (pos 0) then pos 1 else pos 0 })

unfoldable pub fine_system : Option Bytes → Fork → ℕ → Process → Option Result
unfolding run_command
fine_system none fork touched p = is_zero (run_command (codes ":") fork touched p)
fine_system (some command) fork touched p = run_command command fork touched p
