-- ===== src/Environ/Tests.antt =====
-- Runs of setenv() and unsetenv(), and their theorems at concrete inputs.
use bookcode_linux.Common.{
  ◌≡◌, ◌≢◌, refl, ap, some, true, false, not, ◌&&◌, [], ◌∷◌, codes, if◌then◌else◌, bytes_eq,
}
use bookcode_linux.Common.Int.{pos, minus_one}
use bookcode_linux.Environ.{Environ, unsetenv, setenv, remove_all, is_some}
use bookcode_linux.Environ.Entries.{getenv}
use bookcode_linux.Environ.Laws.{
  unsetenv_lem, setenv_lem, setenv_result, getenv-setenv, memory, without,
}

abbrev env : Environ
env = codes "TT=x" ∷ codes "A=1" ∷ codes "TT=y" ∷ []

unsetenv_twice : unsetenv (some (codes "TT")) env ≡ some (pos 0, codes "A=1" ∷ [])
unfolding unsetenv remove_all
unsetenv_twice = refl

unsetenv_bad : unsetenv (some (codes "A=")) env ≡ some (minus_one, env)
unfolding unsetenv
unsetenv_bad = refl

setenv_keeps : setenv memory (some (codes "A")) (some (codes "2")) false env ≡ some (pos 0, env)
unfolding setenv getenv
setenv_keeps = refl

-- The old value is lost when there is no memory for the new one.
setenv_no_memory :
    setenv
      (record { malloc_ok = false; putenv_ok = true })
      (some (codes "A"))
      (some (codes "2"))
      true
      env
    ≡ some (minus_one, codes "TT=x" ∷ codes "TT=y" ∷ [])
unfolding setenv unsetenv remove_all getenv
setenv_no_memory = refl

unsetenv_lem_example : unsetenv (some (codes "TT")) env ≡ some (pos 0, without (codes "TT") env)
unsetenv_lem_example = unsetenv_lem (some (codes "TT")) env

setenv_lem_example :
    setenv memory (some (codes "A")) (some (codes "2")) true env
    ≡ some (setenv_result memory (codes "A") (codes "2") true env)
setenv_lem_example = setenv_lem memory (codes "A") (codes "2") true env refl

names_differ : codes "TT" ≢ codes "A"
names_differ e = cc (ap (bytes_eq (codes "A")) e)

getenv-setenv_example :
    (env' : Environ) × (setenv memory (some (codes "A")) (some (codes "2")) true env
      ≡ some (pos 0, env'))
    × (getenv (codes "A") env' ≡ (
        if is_some (getenv (codes "A") env) && not true
        then getenv (codes "A") env
        else some (codes "2")))
    × (getenv (codes "TT") env' ≡ getenv (codes "TT") env)
getenv-setenv_example =
    getenv-setenv (codes "A") (codes "2") (codes "TT") true env refl refl names_differ
