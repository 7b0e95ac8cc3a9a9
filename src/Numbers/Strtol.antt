-- ===== src/Numbers/Strtol.antt =====
-- strtol(3) of the C library, for a `long` of 64 bits.
use bookcode_linux.Common.{
  ℕ, zero, suc, ◌+◌, ◌-◌, ◌*◌, ◌^◌, Bool, true, false, ◌&&◌, ◌||◌, [], ◌∷◌, Bytes, ◌==◌, ltb, leb,
  if◌then◌else◌,
}
use bookcode_linux.Common.Int.{ℤ, pos, negsuc}

-- The value, what stands at `*endptr`, and whether the value was in range; else it is the nearest
-- `long`, and `errno` is ERANGE.
pub record Parsed : Type 0 where
  pub value : ℤ
  pub rest : Bytes
  pub in_range : Bool

abbrev pub is_space : ℕ → Bool
is_space c = c == 32 || leb 9 c && leb c 13

abbrev pub skip_space : Bytes → Bytes
skip_space [] = []
skip_space (c ∷ s) = if is_space c then skip_space s else c ∷ s

-- The digit that a character stands for; 36 for none.
abbrev pub digit : ℕ → ℕ
digit c =
    if leb b'0' c && leb c b'9'
    then c - b'0'
    else if leb b'a' c && leb c b'z'
    then c - b'a' + 10
    else if leb b'A' c && leb c b'Z'
    then c - b'A' + 10
    else 36

-- The digits of a base at the start of a string, after a value read so far.
unfoldable pub digits : ℕ → ℕ → Bytes → ℕ × Bytes
digits base acc [] = (acc, [])
digits base acc (c ∷ s) = elim (ltb (digit c) base) [
  | true ↦ digits base (acc * base + digit c) s
  | false ↦ (acc, c ∷ s)
]

abbrev pub starts_digit : ℕ → Bytes → Bool
starts_digit base [] = false
starts_digit base (c ∷ s) = ltb (digit c) base

-- A "0x" that a hexadecimal digit follows.
abbrev pub is_hex : Bytes → Bool
is_hex (z ∷ x ∷ s) = z == b'0' && (x == b'x' || x == b'X') && starts_digit 16 s
is_hex [] = false
is_hex (z ∷ []) = false

abbrev pub tail2 : Bytes → Bytes
tail2 (z ∷ x ∷ s) = s
tail2 [] = []
tail2 (z ∷ []) = []

abbrev pub is_zero_first : Bytes → Bool
is_zero_first [] = false
is_zero_first (c ∷ s) = c == b'0'

-- The base in force, and the string behind the prefix.
abbrev pub prefix : ℕ → Bytes → ℕ × Bytes
prefix base s =
    if (base == 0 || base == 16) && is_hex s
    then (16, tail2 s)
    else if base == 0
    then (if is_zero_first s then (8, s) else (10, s))
    else (base, s)

-- `long` has 64 bits.
abbrev pub clamp : Bool → ℕ → Bytes → Parsed
clamp false n rest =
    if ltb n (2 ^ 63)
    then record { value = pos n; rest = rest; in_range = true }
    else record { value = pos (2 ^ 63 - 1); rest = rest; in_range = false }
clamp true zero rest = record { value = pos 0; rest = rest; in_range = true }
clamp true (suc n) rest =
    if ltb n (2 ^ 63)
    then record { value = negsuc n; rest = rest; in_range = true }
    else record { value = negsuc (2 ^ 63 - 1); rest = rest; in_range = false }

abbrev pub number : Bytes → Bool → ℕ × Bytes → Parsed
number all neg (base, s) =
    if starts_digit base s
    then clamp neg (digits base 0 s).0 (digits base 0 s).1
    else record { value = pos 0; rest = all; in_range = true }

abbrev pub signed : ℕ → Bytes → Bytes → Parsed
signed base all [] = record { value = pos 0; rest = all; in_range = true }
signed base all (c ∷ s) =
    if c == b'-'
    then number all true (prefix base s)
    else if c == b'+'
    then number all false (prefix base s)
    else number all false (prefix base (c ∷ s))

unfoldable pub strtol : ℕ → Bytes → Parsed
strtol base s = signed base s (skip_space s)
