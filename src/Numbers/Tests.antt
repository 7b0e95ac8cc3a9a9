-- ===== src/Numbers/Tests.antt =====
-- Numbers on the command line, on a few arguments.
use bookcode_linux.Common.{
  ◌≡◌, refl, true, none, some, [], ◌∷◌, ◌&&◌, ◌==◌, if◌then◌else◌, codes, arith,
}
use bookcode_linux.Common.Int.{pos, negsuc}
use bookcode_linux.Numbers.Strtol.{strtol, digits}
use bookcode_linux.Numbers.{get_num, get_int, gn_gt_0, has_flag}
use bookcode_linux.Numbers.Laws.{numeral, decimal, Within, get_num-get_int}

hexadecimal :
    strtol 0 (codes " -0x1fz") ≡ record { value = negsuc 30; rest = codes "z"; in_range = true }
unfolding strtol digits
hexadecimal = refl

octal : strtol 0 (codes "0178") ≡ record { value = pos 15; rest = codes "8"; in_range = true }
unfolding strtol digits
octal = refl

get_num-get_int_example :
    (get_num (some (numeral (4 ∷ 2 ∷ []))) gn_gt_0 ≡ (
      if has_flag gn_gt_0 gn_gt_0 && (decimal 0 (4 ∷ 2 ∷ []) == 0)
      then none
      else some (pos (decimal 0 (4 ∷ 2 ∷ [])))))
    × Within gn_gt_0 (get_int (some (codes "-7")) gn_gt_0)
get_num-get_int_example =
    get_num-get_int 4 (2 ∷ []) gn_gt_0 (some (codes "-7")) gn_gt_0 (omega arith, (omega arith, tt))
      (omega arith) refl
