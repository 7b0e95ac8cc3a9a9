-- ===== src/Execlp/Tests.antt =====
-- Runs of execlp().
use bookcode_linux.Common.{
  ◌≡◌, refl, none, some, true, false, List, [], ◌∷◌, Bytes, codes, arith, replicate, if◌then◌else◌,
  bytes_eq,
}
use bookcode_linux.Environ.Entries.{getenv}
use bookcode_linux.Execlp.{Execve, Memory, replaced, returned, overrun, execlp, enoexec}
use bookcode_linux.Execlp.Search.{Result}
use bookcode_linux.Execlp.Laws.{execlp-Result}

abbrev plenty : Memory
plenty = record { argv_fits = true; resized_fits = true; envp_fits = true }

abbrev environ : List Bytes
environ = codes "PATH=/a::/b" ∷ []

-- A system in which `/b/ls` is a program, `/b/run` a script, and `/a/ls` may not be executed.
abbrev system : Execve
system path args envp =
    if bytes_eq path (codes "/b/ls")
    then none
    else if bytes_eq path (codes "/b/run")
    then some enoexec
    else if bytes_eq path (codes "/a/ls")
    then some 13
    else some 2

found_last :
    execlp system plenty environ (codes "ls") (codes "ls" ∷ codes "-l" ∷ [])
    ≡ some (replaced (codes "/b/ls") (codes "ls" ∷ codes "-l" ∷ []))
unfolding execlp getenv
found_last = refl

not_found : execlp system plenty environ (codes "cc") [] ≡ some (returned 2)
unfolding execlp getenv
not_found = refl

-- A script: execShScript stores one pointer too many.
script : execlp system plenty environ (codes "run") (codes "run" ∷ []) ≡ some overrun
unfolding execlp getenv
script = refl

-- 99 arguments: realloc() leaves one cell of the array.
many : execlp system plenty environ (codes "ls") (replicate 99 (codes "x")) ≡ some overrun
unfolding execlp getenv
many = refl

path : getenv (codes "PATH") environ ≡ some (codes "/a::/b")
unfolding getenv
path = refl

execlp-Result_example :
    Result system environ
      (codes "ls" ∷ [])
      (codes "ls")
      false
      (codes "/a")
      ([] ∷ codes "/b" ∷ [])
      (execlp system plenty environ (codes "ls") (codes "ls" ∷ []))
execlp-Result_example =
    execlp-Result system plenty environ (codes "ls") (codes "ls" ∷ []) (codes "/a")
      ([] ∷ codes "/b" ∷ []) refl refl (omega arith) (refl, (refl, tt)) path (omega arith)
      (refl, (refl, tt)) (tt, ((refl, (refl, tt)), tt))
