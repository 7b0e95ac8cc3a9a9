-- ===== src/Environ/Laws.antt =====
-- What the environment holds after unsetenv() and setenv().
use bookcode_linux.Common.{
  ℕ, ◌+◌, ◌≡◌, ◌≢◌, refl, sym, ap, ◌∙◌, inl, inr, Option, none, some, Bool, true, false, not, ◌&&◌,
  [], ◌∷◌, ◌++◌, append_assoc, append-nil, Bytes, length, arith, if◌then◌else◌, Good, loop_rule,
  if_rule, Bool-cases,
}
use bookcode_linux.Common.Int.{ℤ, pos, minus_one}
use bookcode_linux.Environ.Entries.{
  is_entry, has_char, equals, getenv, putenv, is_entry_unique, is_entry_self, drop-append,
  name_of-append,
}
use bookcode_linux.Environ.{
  Environ, shift, unsetenv_round, remove_all, is_bad_name, unsetenv, setenv, Memory, is_some,
  text_of,
}

-- The environment without the entries of a name, in the old order.
pub without : Bytes → Environ → Environ
without name [] = []
without name (e ∷ env) = if is_entry name e then without name env else e ∷ without name env

shift-cons : (e : Bytes) (r : Environ) → shift (e ∷ r) ≡ r
unfolding shift
shift-cons e [] = refl
shift-cons e (y ∷ r) = ap (λ t. y ∷ t) (shift-cons y r)

module _ (name : Bytes) (env : Environ) where
  abbrev Removing : Environ × Environ → Type 0
  Removing (before, rest) = before ++ without name rest ≡ without name env

  abbrev Removed : Environ → Type 0
  Removed env' = env' ≡ without name env

  abbrev togo : Environ × Environ → ℕ
  togo (before, rest) = length rest

  round-Good :
      (s : Environ × Environ) → Removing s → Good Removing Removed togo s (unsetenv_round name s)
  unfolding unsetenv_round without
  round-Good (before, []) h = sym (append-nil before) ∙ h
  round-Good (before, e ∷ rest) h =
      if_rule (Good Removing Removed togo (before, e ∷ rest)) (is_entry name e)
        (λ t. rw (shift-cons e rest) ((rw t at h), omega arith))
        (λ f. (append_assoc before (e ∷ []) (without name rest) ∙ (rw f at h), omega arith))

pub remove_all_lem : (name : Bytes) (env : Environ) → remove_all name env ≡ some (without name env)
unfolding remove_all
remove_all_lem name env =
    let (r, e, q) =
      loop_rule (Removing name env) (Removed name env) (togo name env) (unsetenv_round name)
        (round-Good name env) (length env + 1) ([], env) (omega arith) refl in
    e ∙ ap some q

pub getenv-without_self : (name : Bytes) (env : Environ) → getenv name (without name env) ≡ none
unfolding getenv without
getenv-without_self name [] = refl
getenv-without_self name (e ∷ env) = elim (Bool-cases (is_entry name e)) [
  | inl t ↦ rw t (getenv-without_self name env)
  | inr f ↦ rw (f, f) (getenv-without_self name env)
]

pub getenv-without_ne :
    (name other : Bytes) (env : Environ)
    → has_char equals name ≡ false
    → has_char equals other ≡ false
    → other ≢ name
    → getenv other (without name env) ≡ getenv other env
unfolding getenv without
getenv-without_ne name other [] hn ho ne = refl
getenv-without_ne name other (e ∷ env) hn ho ne =
    ground (arith, getenv-without_ne name other env hn ho ne, is_entry_unique other name e)

-- `putenv` of a name that has no entry adds the string at the end.
putenv-new :
    (name value : Bytes) (env : Environ)
    → has_char equals name ≡ false
    → getenv name env ≡ none
    → putenv (name ++ equals ∷ value) env ≡ env ++ (name ++ equals ∷ value) ∷ []
unfolding getenv putenv
putenv-new name value [] hn h = refl
putenv-new name value (e ∷ env) hn h = elim (Bool-cases (is_entry name e)) [
  | inl t ↦ cc (rw t at h)
  | inr f ↦
      rw (name_of-append name value hn, f)
        (ap (λ t. e ∷ t) (putenv-new name value env hn (rw f at h)))
]

getenv-append :
    (other s : Bytes) (env : Environ)
    → getenv other (env ++ s ∷ [])
      ≡ (if is_some (getenv other env) then getenv other env else getenv other (s ∷ []))
unfolding getenv
getenv-append other s [] = refl
getenv-append other s (e ∷ env) = ground (arith, getenv-append other s env)

getenv-single : (name value : Bytes) → getenv name ((name ++ equals ∷ value) ∷ []) ≡ some value
unfolding getenv
getenv-single name value = rw (is_entry_self name value) (ap some (drop-append name value))

getenv-single_ne :
    (name other value : Bytes)
    → has_char equals name ≡ false
    → has_char equals other ≡ false
    → other ≢ name
    → getenv other ((name ++ equals ∷ value) ∷ []) ≡ none
unfolding getenv
getenv-single_ne name other value hn ho ne =
    ground (arith, is_entry_unique other name (name ++ equals ∷ value), is_entry_self name value)

or_none : (o : Option Bytes) → (if is_some o then o else none) ≡ o
or_none none = refl
or_none (some v) = refl

good_name : (name : Bytes) → is_bad_name (some name) ≡ false → has_char equals name ≡ false
good_name [] h = cc
good_name (c ∷ name) h = h

-- For a name that is not empty and has no '=', `unsetenv` returns 0 and leaves the environment
-- without the entries of that name, all others in their order; it fails for every other name, and
-- then changes nothing.
pub unsetenv_lem :
    (name : Option Bytes) (env : Environ)
    → unsetenv name env ≡ (
        if is_bad_name name
        then some (minus_one, env)
        else some (pos 0, without (text_of name) env))
unfolding unsetenv
unsetenv_lem name env = ground (arith, remove_all_lem (text_of name) env)

-- What `setenv` does, for memory that suffices or not.
abbrev pub setenv_result : Memory → Bytes → Bytes → Bool → Environ → ℤ × Environ
setenv_result m name value overwrite env =
    if is_some (getenv name env) && not overwrite
    then (pos 0, env)
    else if m.malloc_ok && m.putenv_ok
    then (pos 0, without name env ++ (name ++ equals ∷ value) ∷ [])
    else (minus_one, without name env)

-- With a good name and a value `setenv` leaves the environment alone if the name is there and may
-- not be overwritten. Otherwise all entries of the name are gone, and the new one stands at the
-- end; but where memory is short the call fails, and the old entries are gone all the same.
pub setenv_lem :
    (m : Memory) (name value : Bytes) (overwrite : Bool) (env : Environ)
    → is_bad_name (some name) ≡ false
    → setenv m (some name) (some value) overwrite env
      ≡ some (setenv_result m name value overwrite env)
unfolding setenv
setenv_lem m name value overwrite env h =
    rw (h, unsetenv_lem (some name) env, h)
      (ground (
        arith,
        putenv-new name value (without name env) (good_name name h) (getenv-without_self name env),
      ))

abbrev pub memory : Memory
memory = record { malloc_ok = true; putenv_ok = true }

-- After a `setenv` for which memory sufficed, `getenv` finds the new value under that name if it
-- was absent or could be overwritten, else the old value, and under every other name what it found
-- before.
pub getenv-setenv :
    (name value other : Bytes) (overwrite : Bool) (env : Environ)
    → is_bad_name (some name) ≡ false
    → is_bad_name (some other) ≡ false
    → other ≢ name
    → (env' : Environ) × (setenv memory (some name) (some value) overwrite env ≡ some (pos 0, env'))
      × (getenv name env'
          ≡ (if is_some (getenv name env) && not overwrite then getenv name env else some value))
      × (getenv other env' ≡ getenv other env)
getenv-setenv name value other overwrite env h ho ne =
    elim (Bool-cases (is_some (getenv name env) && not overwrite)) [
      | inl keep ↦ (env, setenv_lem memory name value overwrite env h ∙ rw keep, rw keep, refl)
      | inr add ↦ (
        without name env ++ (name ++ equals ∷ value) ∷ [],
        setenv_lem memory name value overwrite env h ∙ rw add,
        rw (getenv-append, getenv-without_self, add) (getenv-single name value),
        rw
            (
              getenv-append,
              getenv-without_ne name other env (good_name name h) (good_name other ho) ne,
              getenv-single_ne name other value (good_name name h) (good_name other ho) ne,
            )
            (or_none (getenv other env)),
      )
    ]
