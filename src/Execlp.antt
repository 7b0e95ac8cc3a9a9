-- ===== src/Execlp.antt =====
-- execlp() of TLPI/ch24-procexec/execlp.c, which searches the directories of PATH for a program.
pub mod Argv
pub mod Search
pub mod Laws
mod Tests
use bookcode_linux.Common.{
  ℕ, zero, suc, ◌+◌, ◌-◌, Bool, true, false, Option, none, some, List, [], ◌∷◌, ◌++◌, Bytes, codes,
  length, take, get_elem?, set, replicate, ltb, leb, ◌==◌, if◌then◌else◌, cut, Next, again, stop,
  loop,
}
use bookcode_linux.Environ.Entries.{getenv}

abbrev pub eacces : ℕ
eacces = 13

abbrev pub enoexec : ℕ
enoexec = 8

abbrev pub enomem : ℕ
enomem = 12

-- An argument vector, with its null pointers.
abbrev pub Argv : Type 0
Argv = List (Option Bytes)

-- The arguments that a program finds in a vector.
abbrev pub until_null : Argv → List Bytes
until_null [] = []
until_null (none ∷ rest) = []
until_null (some arg ∷ rest) = arg ∷ until_null rest

-- execve(2) for a pathname, arguments and an environment: the `errno` of a failure, or none if the
-- program is replaced.
abbrev pub Execve : Type 0
Execve = Bytes → List Bytes → List Bytes → Option ℕ

-- What becomes of a call: another program runs, -1 is returned with an `errno`, or memory is
-- accessed outside an array.
pub data Outcome : Type 0 where
  replaced : Bytes → List Bytes → Outcome
  returned : ℕ → Outcome
  overrun : Outcome

-- A store into an array.
abbrev pub write_at : ℕ → Option Bytes → Argv → Option Argv
write_at i arg cells = if ltb i (length cells) then some (set cells i arg) else none

-- A store, and then the rest.
abbrev pub stored : {R : Type 0} → (Argv → R) → R → Option Argv → R
stored next bad none = bad
stored next bad (some cells) = next cells

-- `shArgv[i] = argv[j]`, with what was read of `argv[j]`, and then the rest.
abbrev pub copied : (Argv → Option Argv) → ℕ → Argv → Option (Option Bytes) → Option Argv
copied next i sh_argv none = none
copied next i sh_argv (some arg) = stored next none (write_at i arg sh_argv)

-- The loop of `execShScript` over `k` values from `j` on.
unfoldable pub copy_args : ℕ → ℕ → Argv → Argv → Option Argv
copy_args zero j argv sh_argv = some sh_argv
copy_args (suc k) j argv sh_argv =
    copied (copy_args k (j + 1) argv) (j + 1) sh_argv (get_elem? argv j)

abbrev pub shell_path : Bytes
shell_path = codes "/bin/sh"

-- What the shell leads to; `none` if it could not be executed.
abbrev pub exec_shell : Execve → List Bytes → Option Argv → Option Outcome
exec_shell execve envp none = some overrun
exec_shell execve envp (some sh_argv) = elim (execve shell_path (until_null sh_argv) envp) [
  | none ↦ some (replaced shell_path (until_null sh_argv))
  | some e ↦ none
]

unfoldable pub exec_sh_script : Execve → List Bytes → ℕ → Argv → Option Outcome
unfolding copy_args
exec_sh_script execve envp argc argv =
    exec_shell execve envp (copy_args (argc + 1) 0 argv (some shell_path ∷ replicate argc none))

-- Whether calloc(3) and realloc(3) have memory.
pub record Memory : Type 0 where
  pub argv_fits : Bool
  pub resized_fits : Bool
  pub envp_fits : Bool

-- The argument vector: `argc` and the cells, no memory, or an access outside of it.
pub data Built : Type 0 where
  built : ℕ → Argv → Built
  no_memory : Built
  outside : Built

-- `realloc(argv, sizeof(void *))` keeps one cell.
abbrev pub resize : Bool → ℕ → ℕ → Argv → Option (ℕ × Argv)
resize fits argc size argv =
    if leb size (argc + 1)
    then (if fits then some (size + 100, take 1 argv) else none)
    else some (size, argv)

-- `argv[argc] = va_arg(argList, char *)` in the array that there is, and then the rest.
abbrev pub add_arg : (ℕ → Argv → Built) → ℕ → Option Bytes → Option (ℕ × Argv) → Built
add_arg next argc arg none = no_memory
add_arg next argc arg (some (size, argv)) = stored (next size) outside (write_at argc arg argv)

-- The loop ends at a null pointer in the last cell filled.
abbrev pub unless_null : ℕ → Argv → Built → Option (Option Bytes) → Built
unless_null argc argv go none = outside
unless_null argc argv go (some none) = built argc argv
unless_null argc argv go (some (some arg)) = go

-- The loop over the arguments that va_arg(3) is still to give.
unfoldable pub fill_argv : Bool → Argv → ℕ → ℕ → Argv → Built
fill_argv fits [] argc size argv = unless_null argc argv outside (get_elem? argv (argc - 1))
fill_argv fits (next ∷ va) argc size argv =
    unless_null argc argv
      (add_arg (fill_argv fits va (argc + 1)) argc next (resize fits argc size argv))
      (get_elem? argv (argc - 1))

-- The arguments of the call up to its null pointer.
abbrev pub va_list : List Bytes → Argv
va_list [] = none ∷ []
va_list (arg ∷ args) = some arg ∷ va_list args

-- The first argument goes to the first of 100 cells, the others follow.
abbrev pub argv_of : Bool → Argv → Built
argv_of fits [] = outside
argv_of fits (arg ∷ va) = fill_argv fits va 1 100 (arg ∷ replicate 99 none)

abbrev pub colon : ℕ
colon = 58

abbrev pub slash : ℕ
slash = 47

-- The pathname of the file in a directory of PATH.
abbrev pub in_dir : Bytes → Bytes → Bytes
in_dir [] filename = codes "." ++ slash ∷ filename
in_dir (c ∷ prefix) filename = (c ∷ prefix) ++ slash ∷ filename

-- Behind a failed execve(2), with what stands behind the prefix.
abbrev pub next_prefix : Option Bytes → Bool → ℕ → Next (Bytes × Bool) Outcome
next_prefix none fnd_eacces saved_errno =
    stop (returned (if fnd_eacces then eacces else saved_errno))
next_prefix (some pr_start) fnd_eacces saved_errno = again (pr_start, fnd_eacces)

-- What the script leads to, if the shell runs.
abbrev pub or_script : Option Outcome → Next (Bytes × Bool) Outcome → Next (Bytes × Bool) Outcome
or_script none next = next
or_script (some o) next = stop o

abbrev pub after_execve :
    Execve
    → List Bytes
    → ℕ
    → Argv
    → Bytes
    → Option Bytes
    → Bool
    → Option ℕ
    → Next (Bytes × Bool) Outcome
after_execve execve envp argc argv pathname behind fnd_eacces none =
    stop (replaced pathname (until_null argv))
after_execve execve envp argc argv pathname behind fnd_eacces (some e) =
    if e == eacces
    then next_prefix behind true e
    else if e == enoexec
    then or_script (exec_sh_script execve envp argc argv) (next_prefix behind fnd_eacces e)
    else next_prefix behind fnd_eacces e

-- A round of the search: the prefixes to come, and whether EACCES was found.
unfoldable pub search_round :
    Execve → List Bytes → ℕ → Argv → Bytes → Bytes × Bool → Next (Bytes × Bool) Outcome
unfolding exec_sh_script
search_round execve envp argc argv filename (pr_start, fnd_eacces) =
    let pathname = in_dir (cut colon pr_start).0 filename in
    after_execve execve envp argc argv pathname (cut colon pr_start).1 fnd_eacces
      (execve pathname (until_null argv) envp)

-- Each round takes a prefix and its colon.
unfoldable pub search_path : Execve → List Bytes → ℕ → Argv → Bytes → Bytes → Option Outcome
unfolding search_round loop
search_path execve envp argc argv filename path =
    loop (length path + 1) (search_round execve envp argc argv filename) (path, false)

-- A file that is named with a slash.
abbrev pub exec_direct : Execve → List Bytes → ℕ → Argv → Bytes → Option ℕ → Outcome
exec_direct execve envp argc argv filename none = replaced filename (until_null argv)
exec_direct execve envp argc argv filename (some e) =
    if e == enoexec
    then elim (exec_sh_script execve envp argc argv) [ none ↦ returned e | some o ↦ o ]
    else returned e

-- `(p == NULL || strlen(p) == 0) ? "." : p`
abbrev pub path_or_dot : Option Bytes → Bytes
path_or_dot none = codes "."
path_or_dot (some []) = codes "."
path_or_dot (some (c ∷ path)) = c ∷ path

-- Behind the argument vector.
abbrev pub exec_built : Execve → Memory → List Bytes → Bytes → Built → Option Outcome
exec_built execve mem environ filename (built argc argv) =
    if mem.envp_fits
    then (elim (cut slash filename).1 [
      | some rest ↦ some (
          exec_direct execve environ argc argv filename (execve filename (until_null argv) environ))
      | none ↦
          search_path execve environ argc argv filename
            (path_or_dot (getenv (codes "PATH") environ))
    ])
    else some (returned enomem)
exec_built execve mem environ filename no_memory = some (returned enomem)
exec_built execve mem environ filename outside = some overrun

unfoldable pub execlp : Execve → Memory → List Bytes → Bytes → List Bytes → Option Outcome
unfolding search_path fill_argv exec_sh_script
execlp execve mem environ filename args =
    if mem.argv_fits
    then exec_built execve mem environ filename (argv_of mem.resized_fits (va_list args))
    else some (returned enomem)
