-- ===== src/Acl/Perms.antt =====
-- The permissions of an ACL entry as a bit mask.
use bookcode_linux.Common.{
  ℕ, ◌+◌, ◌/◌, ◌%◌, ◌≡◌, refl, ap, ◌∙◌, Bool, true, false, ◌||◌, Option, none, some, List, [], ◌∷◌,
  Bytes, ◌==◌, if◌then◌else◌, Lacks,
}

abbrev pub acl_execute : ℕ
acl_execute = 1

abbrev pub acl_write : ℕ
acl_write = 2

abbrev pub acl_read : ℕ
acl_read = 4

abbrev pub has_perm : ℕ → ℕ → Bool
has_perm perms p = perms / p % 2 == 1

-- `perms |= p` for a single bit.
abbrev pub with_perm : ℕ → ℕ → ℕ
with_perm perms p = if has_perm perms p then perms else perms + p

-- One character of the permissions; `none` for a bad one.
abbrev pub perm_step : ℕ → ℕ → Option ℕ
perm_step perms c =
    if c == b'r'
    then some (with_perm perms acl_read)
    else if c == b'w'
    then some (with_perm perms acl_write)
    else if c == b'x'
    then some (with_perm perms acl_execute)
    else if c == b'-'
    then some perms
    else none

-- The loop over the characters.
unfoldable pub parse_perms : ℕ → Bytes → Option ℕ
parse_perms perms [] = some perms
parse_perms perms (c ∷ s) = elim (perm_step perms c) [ none ↦ none | some p ↦ parse_perms p s ]

abbrev pub bit : Bool → ℕ → ℕ
bit b n = if b then n else 0

-- A permission string: letters "r", "w", "x" and "-" in any order and number, at least one.
pub data Letter : Type 0 where
  reads writes executes dash : Letter

abbrev letter_char : Letter → ℕ
letter_char reads = b'r'
letter_char writes = b'w'
letter_char executes = b'x'
letter_char dash = b'-'

abbrev pub Perms : Type 0
Perms = Letter × List Letter

abbrev letters : List Letter → Bytes
letters [] = []
letters (l ∷ ls) = letter_char l ∷ letters ls

abbrev pub perms_text : Perms → Bytes
perms_text (l, ls) = letter_char l ∷ letters ls

abbrev is_read : Letter → Bool
is_read reads = true
is_read l = false

abbrev is_write : Letter → Bool
is_write writes = true
is_write l = false

abbrev is_execute : Letter → Bool
is_execute executes = true
is_execute l = false

abbrev any : (Letter → Bool) → List Letter → Bool
any f [] = false
any f (l ∷ ls) = f l || any f ls

abbrev bits : Bool → Bool → Bool → ℕ
bits r w x = bit r acl_read + bit w acl_write + bit x acl_execute

-- Each permission is there if its letter occurs.
abbrev pub perms_value : Perms → ℕ
perms_value (l, ls) = bits (any is_read (l ∷ ls)) (any is_write (l ∷ ls)) (any is_execute (l ∷ ls))

perm_step-letter :
    (r w x : Bool) (l : Letter)
    → perm_step (bits r w x) (letter_char l)
      ≡ some (bits (r || is_read l) (w || is_write l) (x || is_execute l))
perm_step-letter true true true reads = refl
perm_step-letter true true true writes = refl
perm_step-letter true true true executes = refl
perm_step-letter true true true dash = refl
perm_step-letter true true false reads = refl
perm_step-letter true true false writes = refl
perm_step-letter true true false executes = refl
perm_step-letter true true false dash = refl
perm_step-letter true false true reads = refl
perm_step-letter true false true writes = refl
perm_step-letter true false true executes = refl
perm_step-letter true false true dash = refl
perm_step-letter true false false reads = refl
perm_step-letter true false false writes = refl
perm_step-letter true false false executes = refl
perm_step-letter true false false dash = refl
perm_step-letter false true true reads = refl
perm_step-letter false true true writes = refl
perm_step-letter false true true executes = refl
perm_step-letter false true true dash = refl
perm_step-letter false true false reads = refl
perm_step-letter false true false writes = refl
perm_step-letter false true false executes = refl
perm_step-letter false true false dash = refl
perm_step-letter false false true reads = refl
perm_step-letter false false true writes = refl
perm_step-letter false false true executes = refl
perm_step-letter false false true dash = refl
perm_step-letter false false false reads = refl
perm_step-letter false false false writes = refl
perm_step-letter false false false executes = refl
perm_step-letter false false false dash = refl

or_assoc : (a b c : Bool) → ((a || b) || c) ≡ (a || (b || c))
or_assoc true b c = refl
or_assoc false b c = refl

or_false : (a : Bool) → a ≡ (a || false)
or_false true = refl
or_false false = refl

bits_eq :
    {r w x r' w' x' : Bool} → r ≡ r' → w ≡ w' → x ≡ x' → some (bits r w x) ≡ some (bits r' w' x')
bits_eq e f g = rw (e, f, g) refl

parse_perms-letters :
    (ls : List Letter) (r w x : Bool)
    → parse_perms (bits r w x) (letters ls)
      ≡ some (bits (r || any is_read ls) (w || any is_write ls) (x || any is_execute ls))
unfolding parse_perms
parse_perms-letters [] r w x = bits_eq (or_false r) (or_false w) (or_false x)
parse_perms-letters (l ∷ ls) r w x =
    ap (λ o. elim o [ none ↦ none | some p ↦ parse_perms p (letters ls) ])
      (perm_step-letter r w x l)
    ∙ parse_perms-letters ls (r || is_read l) (w || is_write l) (x || is_execute l)
    ∙ bits_eq (or_assoc r (is_read l) (any is_read ls)) (or_assoc w (is_write l) (any is_write ls))
        (or_assoc x (is_execute l) (any is_execute ls))

pub parse_perms-text : (p : Perms) → parse_perms 0 (perms_text p) ≡ some (perms_value p)
parse_perms-text (l, ls) = parse_perms-letters (l ∷ ls) false false false

letter_comma : (l : Letter) → (letter_char l == b',') ≡ false
letter_comma reads = refl
letter_comma writes = refl
letter_comma executes = refl
letter_comma dash = refl

letters-Lacks : (ls : List Letter) → Lacks b',' (letters ls)
letters-Lacks [] = tt
letters-Lacks (l ∷ ls) = (letter_comma l, letters-Lacks ls)

pub perms_text-Lacks : (p : Perms) → Lacks b',' (perms_text p)
perms_text-Lacks (l, ls) = (letter_comma l, letters-Lacks ls)
