-- ===== src/Dtree/Command/Laws.antt =====
-- What the operations keep, every interactive command keeps.
use bookcode_linux.Common.{not, Option, none, some, [], ◌∷◌, Bytes, if_rule}
use bookcode_linux.Common.Int.{ℤ, minus_one}
use bookcode_linux.Dtree.Outcome.{Outcome, running, Returns, Returns->>=}
use bookcode_linux.Dtree.Kernel.{Kernel, State}
use bookcode_linux.Dtree.Stable.{Stable}
use bookcode_linux.Dtree.Watch.{watch_subtree, zap_subtree}
use bookcode_linux.Dtree.Event.{check_cache_consistency}
use bookcode_linux.Dtree.Event.Progress.{after}
use bookcode_linux.Dtree.Command.{
  Cmd, add_tree, verify, list, quit, verbose, dump, checking, write_list, zap, rebuild, unknown,
  cmd_of, argument, chop, until_null, with_arg, on_add, on_zap, on_write, set_verbose, run_command,
  run_line, execute_command,
}

module _ (os : Kernel) (P : State os.World → Type 0) (st : Stable os P) where
  open os use {World, can_open, close}

  abbrev pub Left : ℤ × State World → Type 0
  Left (fd, s) = P s

  with_arg-Left :
      (arg : Option Bytes) (f : Bytes → Outcome (ℤ × State World))
      → ((a : Bytes) → Returns Left (f a))
      → Returns Left (with_arg os arg f)
  with_arg-Left none f h = tt
  with_arg-Left (some a) f h = h a

  add-Left : (fd : ℤ) (s : State World) → P s → (a : Bytes) → Returns Left (on_add os fd s a)
  add-Left fd s u a =
      Returns->>= P Left (watch_subtree os fd a (zap_subtree os fd a s).1)
        (λ s''. running (fd, s'')) (st.watches fd a (zap_subtree os fd a s).1 (st.zaps fd a s u))
        (λ s'' u'. u')

  write-Left : (fd : ℤ) (s : State World) → P s → (a : Bytes) → Returns Left (on_write os fd s a)
  write-Left fd s u a = if_rule (Returns Left) (can_open s.world a) (λ t. u) (λ f. tt)

  run_command-Left :
      (c : Cmd) (arg : Option Bytes) (fd : ℤ) (s : State World)
      → P s
      → Returns Left (run_command os c arg fd s)
  unfolding run_command
  run_command-Left add_tree arg fd s u = with_arg-Left arg (on_add os fd s) (add-Left fd s u)
  run_command-Left verify arg fd s u =
      after Left (check_cache_consistency os s.world s.cache) (λ _. running (fd, s)) (λ _. u)
  run_command-Left list arg fd s u = u
  run_command-Left quit arg fd s u = tt
  run_command-Left verbose arg fd s u =
      st.switches s.check_cache s.dump_cache (set_verbose os arg s.verbose_mask) s u
  run_command-Left dump arg fd s u = st.switches s.check_cache (not s.dump_cache) s.verbose_mask s u
  run_command-Left checking arg fd s u =
      st.switches (not s.check_cache) s.dump_cache s.verbose_mask s u
  run_command-Left write_list arg fd s u = with_arg-Left arg (on_write os fd s) (write-Left fd s u)
  run_command-Left zap arg fd s u = with_arg-Left arg (on_zap os fd s) (λ a. st.zaps fd a s u)
  run_command-Left rebuild arg fd s u =
      st.rebuilds minus_one (record s { world = close s.world fd })
        (st.moves_on (close s.world fd) s u)
  run_command-Left unknown arg fd s u = u

  run_line-Left :
      (line : Bytes) (fd : ℤ) (s : State World) → P s → Returns Left (run_line os line fd s)
  run_line-Left [] fd s u = u
  run_line-Left (c ∷ rest) fd s u = run_command-Left (cmd_of c) (argument rest) fd s u

  pub execute_command-Left :
      (line : Bytes) (fd : ℤ) (s : State World) → P s → Returns Left (execute_command os line fd s)
  unfolding execute_command
  execute_command-Left [] fd s u = tt
  execute_command-Left (c ∷ line) fd s u = run_line-Left (until_null (chop (c ∷ line))) fd s u
