-- ===== src/Environ/Entries.antt =====
-- The strings `name=value` of an environment, and getenv(3) and putenv(3) on a list of them.
use bookcode_linux.Common.{
  ℕ, suc, ◌+◌, ◌≡◌, refl, Option, none, some, Bool, true, false, ◌&&◌, ◌||◌, List, [], ◌∷◌, ◌++◌,
  Bytes, length, drop, get_elem?, ◌==◌, starts_with, if◌then◌else◌, arith,
}

abbrev pub equals : ℕ
equals = b'='

-- `strchr(s, c) != NULL`
abbrev pub has_char : ℕ → Bytes → Bool
has_char c [] = false
has_char c (x ∷ s) = x == c || has_char c s

-- `s[i] == c`; behind the last byte stands the null byte.
abbrev pub char_is : Option ℕ → ℕ → Bool
char_is none c = false
char_is (some x) c = x == c

-- `strncmp(e, name, strlen(name)) == 0 && e[strlen(name)] == '='`
abbrev pub is_entry : Bytes → Bytes → Bool
is_entry name e = starts_with name e && char_is (get_elem? e (length name)) equals

-- The value of the first entry of that name.
unfoldable pub getenv : Bytes → List Bytes → Option Bytes
getenv name [] = none
getenv name (e ∷ env) = if is_entry name e then some (drop (length name + 1) e) else getenv name env

-- The part before the first '='.
abbrev pub name_of : Bytes → Bytes
name_of [] = []
name_of (x ∷ s) = if x == equals then [] else x ∷ name_of s

-- `putenv` replaces the entry of the same name, or adds the string at the end.
unfoldable pub putenv : Bytes → List Bytes → List Bytes
putenv s [] = s ∷ []
putenv s (e ∷ env) = if is_entry (name_of s) e then s ∷ env else e ∷ putenv s env

-- A string is an entry of one name at most.
pub is_entry_unique :
    (n m e : Bytes)
    → has_char equals n ≡ false
    → has_char equals m ≡ false
    → is_entry n e ≡ true
    → is_entry m e ≡ true
    → n ≡ m
is_entry_unique [] [] e hn hm p q = refl
is_entry_unique [] (y ∷ m) [] hn hm p q = cc
is_entry_unique [] (y ∷ m) (z ∷ e) hn hm p q = ground arith
is_entry_unique (x ∷ n) [] [] hn hm p q = cc
is_entry_unique (x ∷ n) [] (z ∷ e) hn hm p q = ground arith
is_entry_unique (x ∷ n) (y ∷ m) [] hn hm p q = cc
is_entry_unique (x ∷ n) (y ∷ m) (z ∷ e) hn hm p q = ground (arith, is_entry_unique n m e)

pub is_entry_self : (n v : Bytes) → is_entry n (n ++ equals ∷ v) ≡ true
is_entry_self [] v = refl
is_entry_self (x ∷ n) v = ground (arith, is_entry_self n v)

pub drop-append : (n v : Bytes) → drop (length n + 1) (n ++ equals ∷ v) ≡ v
drop-append [] v = refl
drop-append (x ∷ n) v =
    let e : suc (length n) + 1 ≡ suc (length n + 1) = omega arith in rw e (drop-append n v)

pub name_of-append : (n v : Bytes) → has_char equals n ≡ false → name_of (n ++ equals ∷ v) ≡ n
name_of-append [] v h = refl
name_of-append (x ∷ n) v h = ground (arith, name_of-append n v)
