-- ===== src/Execlp/Laws.antt =====
-- What becomes of a call of execlp().
use bookcode_linux.Common.{
  ℕ, ◌<◌, ◌≡◌, refl, some, true, false, List, [], ◌∷◌, Bytes, codes, length, All, arith, ap, sym,
  ◌∙◌, subst, Lacks, cut-none, if◌then◌else◌,
}
use bookcode_linux.Environ.Entries.{getenv}
use bookcode_linux.Execlp.{
  returned, enomem, Execve, Memory, Argv, built, exec_built, execlp, colon, slash, path_or_dot,
  argv_of, va_list, search_path,
}
use bookcode_linux.Execlp.Argv.{argv_of-Holds}
use bookcode_linux.Execlp.Search.{path_text, Result, search_path-Result}

path_or_dot-nonempty : (path : Bytes) → 0 < length path → path_or_dot (some path) ≡ path
path_or_dot-nonempty [] more = absurd (omega arith)
path_or_dot-nonempty (c ∷ path) more = refl

exec_built-search :
    (execve : Execve) (mem : Memory) (environ : List Bytes) (filename path : Bytes) (argc : ℕ)
    (argv : Argv)
    → mem.envp_fits ≡ true
    → Lacks slash filename
    → getenv (codes "PATH") environ ≡ some path
    → 0 < length path
    → exec_built execve mem environ filename (built argc argv)
      ≡ search_path execve environ argc argv filename path
exec_built-search execve mem environ filename path argc argv fits bare found more =
    rw (fits, cut-none slash filename bare, found, path_or_dot-nonempty path more) refl

-- With fewer than 99 arguments and memory for the arrays, a file named without a slash, and a
-- PATH that is not empty, execlp tries the directories of PATH in order, the current one for an
-- empty name. It executes the first file that can be executed, with all the arguments; at the
-- first that is in no known format it stores outside an array; if every try fails otherwise, it
-- returns EACCES if a try failed with that, else the error of the last try.
pub execlp-Result :
    (execve : Execve) (mem : Memory) (environ : List Bytes) (filename : Bytes) (args : List Bytes)
    (d : Bytes) (ds : List Bytes)
    → mem.argv_fits ≡ true
    → mem.envp_fits ≡ true
    → length args < 99
    → Lacks slash filename
    → getenv (codes "PATH") environ ≡ some (path_text d ds)
    → 0 < length (path_text d ds)
    → Lacks colon d
    → All (Lacks colon) ds
    → Result execve environ args filename false d ds (execlp execve mem environ filename args)
unfolding execlp
execlp-Result execve mem environ filename args d ds room room' few bare found more h hs =
    let (argc, argv, e, same) = argv_of-Holds mem.resized_fits args few in
    let eq : execlp execve mem environ filename args
        ≡ search_path execve environ argc argv filename (path_text d ds) =
      ap
        (λ b.
          if b
          then exec_built execve mem environ filename (argv_of mem.resized_fits (va_list args))
          else some (returned enomem))
        room
      ∙ ap (exec_built execve mem environ filename) e
      ∙ exec_built-search execve mem environ filename (path_text d ds) argc argv room' bare found
          more in
    subst (Result execve environ args filename false d ds) (sym eq) (
      subst
        (λ given.
          Result execve environ given filename false d ds
            (search_path execve environ argc argv filename (path_text d ds)))
        same (search_path-Result execve environ argc argv filename d ds h hs))
