-- ===== src/Dtree/Command.antt =====
-- The interactive commands: executeCommand() of inotify_dtree.c.
pub mod Laws
use bookcode_linux.Common.{
  ℕ, zero, suc, ◌+◌, ◌-◌, ◌*◌, Bool, true, false, not, ◌&&◌, ◌||◌, Option, none, some, List, [],
  ◌∷◌, ◌++◌, Bytes, length, take, leb, ◌==◌, if◌then◌else◌,
}
use bookcode_linux.Common.Int.{ℤ, pos, negsuc, eq_ℤ, minus_one}
use bookcode_linux.Dtree.Outcome.{
  Outcome, running, exited, undefined, exit_failure, exit_success, ◌>>=◌,
}
use bookcode_linux.Numbers.Strtol.{is_space, skip_space}
use bookcode_linux.Timer.{atoi}
use bookcode_linux.Dtree.Kernel.{Kernel, State}
use bookcode_linux.Dtree.Watch.{watch_subtree, zap_subtree, reinitialize}
use bookcode_linux.Dtree.Event.{check_cache_consistency}

abbrev pub word : Bytes → Bytes
word [] = []
word (c ∷ s) = if is_space c then [] else c ∷ word s

-- `%s` behind the first character: the argument, if there is one.
abbrev pub argument : Bytes → Option Bytes
argument s = elim (word (skip_space s)) [ [] ↦ none | c ∷ w ↦ some (c ∷ w) ]

-- `line[numRead - 1] = '\0'`: the line without its last byte.
abbrev pub chop : Bytes → Bytes
chop line = take (length line - 1) line

-- The C string at the start of the bytes.
abbrev pub until_null : Bytes → Bytes
until_null [] = []
until_null (c ∷ s) = if c == 0 then [] else c ∷ until_null s

-- What a command letter stands for.
pub data Cmd : Type 0 where
  add_tree verify list quit verbose dump checking write_list zap rebuild unknown : Cmd

pub cmd_of : ℕ → Cmd
cmd_of c =
    if c == b'a'
    then add_tree
    else if c == b'c' || c == b'C'
    then verify
    else if c == b'l'
    then list
    else if c == b'q'
    then quit
    else if c == b'v'
    then verbose
    else if c == b'd'
    then dump
    else if c == b'x'
    then checking
    else if c == b'w'
    then write_list
    else if c == b'z'
    then zap
    else if c == b'0'
    then rebuild
    else unknown

module _ (os : Kernel) where
  open os use {World, close, can_open}

  -- A command that needs its argument reads an uninitialised buffer when there is none.
  abbrev pub with_arg :
      Option Bytes → (Bytes → Outcome (ℤ × State World)) → Outcome (ℤ × State World)
  with_arg none f = undefined
  with_arg (some arg) f = f arg

  -- The result of `zapSubtree` is only logged, a failure too.
  abbrev pub on_add : ℤ → State World → Bytes → Outcome (ℤ × State World)
  on_add fd s arg =
      let (cnt, s') = zap_subtree os fd arg s in
      watch_subtree os fd arg s' >>= λ s''. running (fd, s'')

  abbrev pub on_zap : ℤ → State World → Bytes → Outcome (ℤ × State World)
  on_zap fd s arg = let (cnt, s') = zap_subtree os fd arg s in running (fd, s')

  abbrev pub set_verbose : Option Bytes → ℤ → ℤ
  set_verbose (some arg) v = atoi arg
  set_verbose none v = if eq_ℤ v (pos 0) then pos 1 else pos 0

  -- A file that cannot be opened is written to all the same.
  abbrev pub on_write : ℤ → State World → Bytes → Outcome (ℤ × State World)
  on_write fd s arg = if can_open s.world arg then running (fd, s) else undefined

  pub run_command : Cmd → Option Bytes → ℤ → State World → Outcome (ℤ × State World)
  run_command add_tree arg fd s = with_arg arg (on_add fd s)
  run_command verify arg fd s = check_cache_consistency os s.world s.cache >>= λ _. running (fd, s)
  run_command list arg fd s = running (fd, s)
  run_command quit arg fd s = exited exit_success
  run_command verbose arg fd s =
      running (fd, record s { verbose_mask = set_verbose arg s.verbose_mask })
  run_command dump arg fd s = running (fd, record s { dump_cache = not s.dump_cache })
  run_command checking arg fd s = running (fd, record s { check_cache = not s.check_cache })
  run_command write_list arg fd s = with_arg arg (on_write fd s)
  run_command zap arg fd s = with_arg arg (on_zap fd s)
  run_command rebuild arg fd s = reinitialize os minus_one (record s { world = close s.world fd })
  run_command unknown arg fd s = running (fd, s)

  abbrev pub run_line : Bytes → ℤ → State World → Outcome (ℤ × State World)
  run_line [] fd s = running (fd, s)
  run_line (c ∷ rest) fd s = run_command (cmd_of c) (argument rest) fd s

  -- What read(2) returned on standard input: at most 100 bytes, none at end of file or error.
  pub execute_command : Bytes → ℤ → State World → Outcome (ℤ × State World)
  execute_command [] fd s = exited exit_failure
  execute_command (c ∷ line) fd s = run_line (until_null (chop (c ∷ line))) fd s
