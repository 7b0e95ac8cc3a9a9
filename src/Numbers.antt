-- ===== src/Numbers.antt =====
-- Numbers on the command line: TLPI/lib/get_num.c, over strtol(3).
pub mod Strtol
pub mod Laws
mod Tests
use bookcode_linux.Common.{
  ℕ, suc, ◌+◌, ◌*◌, ◌/◌, ◌%◌, ◌^◌, Bool, true, false, not, ◌&&◌, ◌||◌, Option, none, some, List, [],
  ◌∷◌, Bytes, ◌==◌, ltb, if◌then◌else◌,
}
use bookcode_linux.Common.Int.{ℤ, pos, negsuc}
use bookcode_linux.Numbers.Strtol.{Parsed, strtol}

-- The flags of get_num.h.
abbrev pub gn_nonneg : ℕ
gn_nonneg = 1

abbrev pub gn_gt_0 : ℕ
gn_gt_0 = 2

abbrev pub gn_any_base : ℕ
gn_any_base = 64

abbrev pub gn_base_8 : ℕ
gn_base_8 = 128

abbrev pub gn_base_16 : ℕ
gn_base_16 = 256

-- `flags & flag`
abbrev pub has_flag : ℕ → ℕ → Bool
has_flag flags flag = flags / flag % 2 == 1

abbrev pub base_of : ℕ → ℕ
base_of flags =
    if has_flag flags gn_any_base
    then 0
    else if has_flag flags gn_base_8
    then 8
    else if has_flag flags gn_base_16
    then 16
    else 10

abbrev pub is_negative : ℤ → Bool
is_negative (pos n) = false
is_negative (negsuc n) = true

abbrev pub is_positive : ℤ → Bool
is_positive (pos n) = ltb 0 n
is_positive (negsuc n) = false

abbrev pub is_empty : Bytes → Bool
is_empty [] = true
is_empty (c ∷ s) = false

-- The checks behind strtol(); `none` is a failure, which ends the program.
abbrev pub checked : ℕ → Parsed → Option ℤ
checked flags p =
    if not p.in_range
    then none
    else if not (is_empty p.rest)
    then none
    else if has_flag flags gn_nonneg && is_negative p.value
    then none
    else if has_flag flags gn_gt_0 && not (is_positive p.value)
    then none
    else some p.value

pub get_num : Option Bytes → ℕ → Option ℤ
get_num none flags = none
get_num (some []) flags = none
get_num (some (c ∷ arg)) flags = checked flags (strtol (base_of flags) (c ∷ arg))

pub get_long : Option Bytes → ℕ → Option ℤ
get_long arg flags = get_num arg flags

-- `res > INT_MAX || res < INT_MIN`
abbrev pub is_int : ℤ → Bool
is_int (pos n) = ltb n (2 ^ 31)
is_int (negsuc n) = ltb n (2 ^ 31)

abbrev pub as_int : ℤ → Option ℤ
as_int res = if is_int res then some res else none

pub get_int : Option Bytes → ℕ → Option ℤ
get_int arg flags = elim (get_num arg flags) [ none ↦ none | some res ↦ as_int res ]
