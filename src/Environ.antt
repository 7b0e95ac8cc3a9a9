-- ===== src/Environ.antt =====
-- setenv() and unsetenv() of TLPI/proc/setenv.c over the list `environ`.
pub mod Entries
pub mod Laws
mod Tests
use bookcode_linux.Common.{
  ℕ, ◌+◌, ◌≡◌, Option, none, some, Bool, true, false, not, ◌&&◌, ◌||◌, List, [], ◌∷◌, ◌++◌, Bytes,
  length, drop, if◌then◌else◌, Next, again, stop, loop,
}
use bookcode_linux.Common.Int.{ℤ, pos, minus_one}
use bookcode_linux.Environ.Entries.{is_entry, has_char, equals, getenv, putenv}

abbrev pub Environ : Type 0
Environ = List Bytes

-- `for (sp = ep; *sp != NULL; sp++) *sp = *(sp + 1);` on the list that starts at `ep`: each
-- element takes the value of the next, and the last one that of the terminator.
pub shift : List Bytes → List Bytes
shift [] = []
shift (x ∷ []) = []
shift (x ∷ y ∷ r) = y ∷ shift (y ∷ r)

-- One round of the loop over `ep`: the state is what stands before `ep`, and what stands from `ep`
-- on.
unfoldable pub unsetenv_round : Bytes → Environ × Environ → Next (Environ × Environ) Environ
unsetenv_round name (before, []) = stop before
unsetenv_round name (before, e ∷ rest) =
    if is_entry name e then again (before, shift (e ∷ rest)) else again (before ++ (e ∷ []), rest)

-- Each round takes one element off what is left.
unfoldable pub remove_all : Bytes → Environ → Option Environ
unfolding unsetenv_round loop shift
remove_all name env = loop (length env + 1) (unsetenv_round name) ([], env)

-- `name == NULL || name[0] == '\0' || strchr(name, '=') != NULL`
abbrev pub is_bad_name : Option Bytes → Bool
is_bad_name none = true
is_bad_name (some []) = true
is_bad_name (some (c ∷ name)) = has_char equals (c ∷ name)

abbrev pub text_of : Option Bytes → Bytes
text_of none = []
text_of (some s) = s

-- The value returned, with the environment. `none` is for a loop that does not end.
unfoldable pub unsetenv : Option Bytes → Environ → Option (ℤ × Environ)
unsetenv name env =
    if is_bad_name name
    then some (minus_one, env)
    else (elim (remove_all (text_of name) env) [ none ↦ none | some env' ↦ some (pos 0, env') ])

-- Whether `malloc` and `putenv` find memory.
pub record Memory : Type 0 where
  pub malloc_ok : Bool
  pub putenv_ok : Bool

abbrev pub is_null : Option Bytes → Bool
is_null none = true
is_null (some s) = false

abbrev pub is_some : Option Bytes → Bool
is_some o = not (is_null o)

-- The end of `setenv`: the new string is built and put into the environment.
abbrev pub add_entry : Memory → Bytes → Bytes → Environ → ℤ × Environ
add_entry m name value env =
    if m.malloc_ok
    then (if m.putenv_ok then (pos 0, putenv (name ++ equals ∷ value) env) else (minus_one, env))
    else (minus_one, env)

unfoldable pub setenv : Memory → Option Bytes → Option Bytes → Bool → Environ → Option (ℤ × Environ)
setenv m name value overwrite env =
    if is_bad_name name || is_null value
    then some (minus_one, env)
    else if is_some (getenv (text_of name) env) && not overwrite
    then some (pos 0, env)
    else (elim (unsetenv name env) [
      | none ↦ none
      | some (r, env') ↦ some (add_entry m (text_of name) (text_of value) env')
    ])
