-- ===== src/Common/Strings.antt =====
-- C strings as lists of bytes without the terminator, and the tests of <string.h> on them.
use Prim.Native.Nat.{ℕ}
use mathlib.Core.Path.{◌≡◌, refl}
use mathlib.Core.Logic.{◌↔◌}
use mathlib.Core.Bool.{Bool, true, false, ◌&&◌}
use mathlib.Core.List.{List, [], ◌∷◌, ◌++◌}
use mathlib.Core.Option.{Option, none, some}
use native.Mathlib.Omega.{arith}
use Prim.Native.Char.{code}
use Prim.Native.String.{String}
use bookcode_linux.Common.Tests.{◌==◌, ==-self}

abbrev pub Bytes : Type 0
Bytes = List ℕ

-- The bytes of an ASCII literal.
abbrev pub codes : String → Bytes
codes String.[] = []
codes (String.◌∷◌ c s) = code c ∷ codes s

-- `strcmp(s, t) == 0`
abbrev pub bytes_eq : Bytes → Bytes → Bool
bytes_eq [] [] = true
bytes_eq [] (y ∷ t) = false
bytes_eq (x ∷ s) [] = false
bytes_eq (x ∷ s) (y ∷ t) = x == y && bytes_eq s t

-- `strncmp(p, s, strlen(p)) == 0`: the string `s` begins with `p`.
abbrev pub starts_with : Bytes → Bytes → Bool
starts_with [] s = true
starts_with (x ∷ p) [] = false
starts_with (x ∷ p) (y ∷ s) = x == y && starts_with p s

pub bytes_eq_sound : (s t : Bytes) → bytes_eq s t ≡ true → s ≡ t
bytes_eq_sound [] [] h = refl
bytes_eq_sound [] (y ∷ t) h = cc
bytes_eq_sound (x ∷ s) [] h = cc
bytes_eq_sound (x ∷ s) (y ∷ t) h = ground (arith, bytes_eq_sound s t)

pub bytes_eq_self : (s : Bytes) → bytes_eq s s ≡ true
bytes_eq_self [] = refl
bytes_eq_self (x ∷ s) = ground (arith, bytes_eq_self s)

pub bytes_eq_iff : (s t : Bytes) → (bytes_eq s t ≡ true) ↔ (s ≡ t)
bytes_eq_iff s t = (bytes_eq_sound s t, λ e. rw (← e) (bytes_eq_self s))

-- `strchr(s, c)`, with the string cut there: what stands before the first `c`, and behind it.
abbrev pub cut : ℕ → Bytes → Bytes × Option Bytes
cut c [] = ([], none)
cut c (x ∷ s) = elim (x == c) [ true ↦ ([], some s) | false ↦ (x ∷ (cut c s).0, (cut c s).1) ]

-- The string has no `c`.
abbrev pub Lacks : ℕ → Bytes → Type 0
Lacks c [] = Unit
Lacks c (x ∷ s) = ((x == c) ≡ false) × Lacks c s

pub cut-append : (c : ℕ) (s rest : Bytes) → Lacks c s → cut c (s ++ c ∷ rest) ≡ (s, some rest)
cut-append c [] rest h = rw (cut, ==-self c) refl
cut-append c (x ∷ s) rest (h, hs) = rw (cut, h, cut-append c s rest hs) refl

pub cut-none : (c : ℕ) (s : Bytes) → Lacks c s → cut c s ≡ (s, none)
cut-none c [] h = refl
cut-none c (x ∷ s) (h, hs) = rw (cut, h, cut-none c s hs) refl

pub Lacks-append : (c : ℕ) (s t : Bytes) → Lacks c s → Lacks c t → Lacks c (s ++ t)
Lacks-append c [] t h k = k
Lacks-append c (x ∷ s) t (h, hs) k = (h, Lacks-append c s t hs k)
