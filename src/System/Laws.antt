-- ===== src/System/Laws.antt =====
-- What fine_system() leaves of the caller's signals, and what its shell finds.
use bookcode_linux.Common.{
  ℕ, zero, suc, Ends, ◌≡◌, refl, ap, sym, ◌∙◌, none, some, false, ◌||◌, List, [], ◌∷◌, Bytes, codes,
  ◌==◌, ==_iff, if◌then◌else◌, if_rule, arith,
}
use bookcode_linux.Common.Int.{ℤ, pos, minus_one, eq_ℤ}
use bookcode_linux.Io.Posix.{eintr}
use bookcode_linux.System.{
  sigint, sigquit, sigchld, Handler, sig_dfl, sig_ign, function, Sigaction, Process, sa_ignore,
  sa_default, shield, reset, child, restore, exec_handler, Program, exec, Wait, status, error,
  wait_child, fork_fails, forks, Result, returned, is_zero, run_command, fine_system,
}

-- The same signals: the actions for all of them, and which are blocked.
abbrev pub SameSignals : Process → Process → Type 0
SameSignals p q = ((s : ℕ) → p.action s ≡ q.action s) × ((s : ℕ) → p.blocked s ≡ q.blocked s)

restored :
    (p : Process) (errno touched : ℕ)
    → SameSignals (restore (shield p).1 touched (record (shield p).0 { errno = errno })) p
restored p errno touched = (actions, λ s. refl)
  where
    actions :
        (s : ℕ)
        → (restore (shield p).1 touched (record (shield p).0 { errno = errno })).action s
          ≡ p.action s
    actions s = ground arith

-- The caller waits with SIGINT and SIGQUIT ignored and SIGCHLD blocked; for all other signals
-- nothing has changed.
abbrev pub Shielded : Process → Process → Type 0
Shielded p q =
    (s : ℕ)
    → (q.action s ≡ (if s == sigint || s == sigquit then sa_ignore else p.action s))
      × (q.blocked s ≡ (s == sigchld || p.blocked s))

shield-Shielded : (p : Process) → Shielded p (shield p).0
shield-Shielded p s = (ground arith, refl)

-- The shell finds the signals as if the caller had executed it.
abbrev pub AsExecuted : Process → Program → Type 0
AsExecuted p shell =
    (s : ℕ)
    → (shell.handler s ≡ exec_handler (p.action s).sa_handler) × (shell.blocked s ≡ p.blocked s)

-- What step (4) leaves of an ignored signal, for the handler that there was.
abbrev left : Handler → Sigaction
left sig_ign = sa_ignore
left sig_dfl = sa_default
left (function f) = sa_default

left-exec : (h : Handler) → exec_handler (left h).sa_handler ≡ exec_handler h
left-exec sig_ign = refl
left-exec sig_dfl = refl
left-exec (function f) = refl

reset-left :
    (sig : ℕ) (h : Handler) (p : Process) (s : ℕ)
    → p.action sig ≡ sa_ignore
    → (reset sig h p).action s ≡ (if s == sig then left h else p.action s)
reset-left sig sig_dfl p s e = refl
reset-left sig (function f) p s e = refl
reset-left sig sig_ign p s e =
    if_rule (λ a. p.action s ≡ a) (s == sig) (λ t. ap p.action ((==_iff s sig).0 t) ∙ e) (λ f. refl)

other_action :
    (p : Process) (s : ℕ)
    → (s == sigquit) ≡ false
    → (s == sigint) ≡ false
    → (shield p).0.action s ≡ p.action s
other_action p s f g = ground arith

-- By the signal: SIGQUIT, SIGINT or another.
child_action :
    (p : Process) (s : ℕ)
    → exec_handler ((child (shield p).1 (shield p).0).action s).sa_handler
      ≡ exec_handler (p.action s).sa_handler
child_action p s =
    ap seen_as (
      reset-left sigquit (p.action sigquit).sa_handler after_int s
        (reset-left sigint (p.action sigint).sa_handler (shield p).0 sigquit refl))
    ∙ if_rule (λ a. seen_as a ≡ seen_as (p.action s)) (s == sigquit)
        (λ t.
          left-exec (p.action sigquit).sa_handler
          ∙ ap (λ x. seen_as (p.action x)) (sym ((==_iff s sigquit).0 t)))
        (λ f.
          ap seen_as (reset-left sigint (p.action sigint).sa_handler (shield p).0 s refl)
          ∙ if_rule (λ a. seen_as a ≡ seen_as (p.action s)) (s == sigint)
              (λ t.
                left-exec (p.action sigint).sa_handler
                ∙ ap (λ x. seen_as (p.action x)) (sym ((==_iff s sigint).0 t)))
              (λ g. ap seen_as (other_action p s f g)))
  where
    seen_as : Sigaction → Handler
    seen_as a = exec_handler a.sa_handler

    after_int : Process
    after_int = reset sigint (p.action sigint).sa_handler (shield p).0

child-AsExecuted :
    (p : Process) (argv : List Bytes) → AsExecuted p (exec (child (shield p).1 (shield p).0) argv)
child-AsExecuted p argv s = (child_action p s, child_blocked s)
  where
    child_blocked : (s : ℕ) → (child (shield p).1 (shield p).0).blocked s ≡ p.blocked s
    child_blocked s = refl

-- The end of the wait: not an interruption.
abbrev pub IsFinal : Wait → Type 0
IsFinal (status n) = Unit
IsFinal (error e) = (e == eintr) ≡ false

-- Some interruptions, and what ends the wait.
abbrev pub interrupted : ℕ → Wait → List Wait → List Wait
interrupted zero w waits = w ∷ waits
interrupted (suc k) w waits = error eintr ∷ interrupted k w waits

-- The value returned, and `errno` after an error.
abbrev pub Tells : Wait → ℤ → ℕ → Type 0
Tells (status n) ret errno = ret ≡ n
Tells (error e) ret errno = (ret ≡ minus_one) × (errno ≡ e)

wait_child-Tells :
    (k : ℕ) (w : Wait) (waits : List Wait) (errno : ℕ)
    → IsFinal w
    → Ends (λ r. Tells w r.0 r.1) (wait_child errno (interrupted k w waits))
unfolding wait_child
wait_child-Tells zero (status n) waits errno h = ((n, errno), refl, refl)
wait_child-Tells zero (error e) waits errno h = (
  (minus_one, e),
  ap (λ b. if b then wait_child e waits else some (minus_one, e)) h,
  (refl, refl),
)
wait_child-Tells (suc k) w waits errno h = wait_child-Tells k w waits eintr h

-- What a call with a child leaves.
abbrev pub Called : Process → Bytes → Wait → Result → Type 0
Called p command w r =
    Tells w r.ret r.caller.errno
    × SameSignals r.caller p
    × Shielded p r.waiting
    × ((shell : Program) × (r.shell ≡ some shell)
        × AsExecuted p shell
        × (shell.argv ≡ codes "sh" ∷ codes "-c" ∷ command ∷ []))

-- What a call without a child leaves.
abbrev pub Unforked : Process → ℕ → Result → Type 0
Unforked p e r =
    (r.ret ≡ minus_one) × (r.caller.errno ≡ e) × SameSignals r.caller p × (r.shell ≡ none)

-- What a call without a command answers, by what the wait for the command `:` gave.
abbrev IsAnswer : Wait → ℤ → Type 0
IsAnswer (status n) ret = ret ≡ (if eq_ℤ n (pos 0) then pos 1 else pos 0)
IsAnswer (error e) ret = ret ≡ pos 0

abbrev pub Asked : Process → Wait → Result → Type 0
Asked p w r = IsAnswer w r.ret × SameSignals r.caller p × Shielded p r.waiting

abbrev pub Unanswered : Process → ℕ → Result → Type 0
Unanswered p e r = (r.ret ≡ pos 0) × (r.caller.errno ≡ e) × SameSignals r.caller p

run_command_lem :
    (p : Process) (command : Bytes) (touched k : ℕ) (w : Wait) (waits : List Wait)
    → IsFinal w
    → Ends (Called p command w) (run_command command (forks (interrupted k w waits)) touched p)
unfolding run_command
run_command_lem p command touched k w waits h =
    let argv : List Bytes = codes "sh" ∷ codes "-c" ∷ command ∷ [] in
    let shell : Program = exec (child (shield p).1 (shield p).0) argv in
    let ((n, errno), eq, tells) = wait_child-Tells k w waits p.errno h in
    (
      _,
      ap (returned (shield p).1 touched (shield p).0 shell) eq,
      (
        tells,
        restored p errno touched,
        shield-Shielded p,
        (shell, refl, child-AsExecuted p argv, refl),
      ),
    )

Tells-IsAnswer :
    (w : Wait) (ret : ℤ) (errno : ℕ)
    → Tells w ret errno
    → IsAnswer w (if eq_ℤ ret (pos 0) then pos 1 else pos 0)
Tells-IsAnswer (status n) ret errno t = ap (λ m. if eq_ℤ m (pos 0) then pos 1 else pos 0) t
Tells-IsAnswer (error e) ret errno t = ap (λ m. if eq_ℤ m (pos 0) then pos 1 else pos 0) t.0

-- fine_system returns the status of its child however often the wait is interrupted, or -1 with
-- the errno of fork(2) or waitpid(2); without a command it returns 1 if the command `:` has the
-- status 0, else 0, also if there is no child. The caller has the actions and the mask that it
-- had before, for every signal; while it waits, SIGINT and SIGQUIT are ignored and SIGCHLD is
-- blocked besides, and no more; and the shell of the child finds the signals as if the caller
-- itself had executed it.
pub fine_system_lem :
    (p : Process) (command : Bytes) (touched e k : ℕ) (w : Wait) (waits : List Wait)
    → IsFinal w
    → Ends
        (Called p command w)
        (fine_system (some command) (forks (interrupted k w waits)) touched p)
      × Ends (Unforked p e) (fine_system (some command) (fork_fails e) touched p)
      × Ends (Asked p w) (fine_system none (forks (interrupted k w waits)) touched p)
      × Ends (Unanswered p e) (fine_system none (fork_fails e) touched p)
unfolding fine_system run_command
fine_system_lem p command touched e k w waits h =
    let (r, eq, (tells, same, waiting, _)) = run_command_lem p (codes ":") touched k w waits h in
    (
      run_command_lem p command touched k w waits h,
      (_, refl, (refl, refl, restored p e touched, refl)),
      (_, ap is_zero eq, (Tells-IsAnswer w r.ret r.caller.errno tells, same, waiting)),
      (_, refl, (refl, refl, restored p e touched)),
    )
