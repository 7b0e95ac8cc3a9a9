-- ===== src/Timer/Tests.antt =====
-- Timer settings as text.
use bookcode_linux.Common.{◌≡◌, refl, none, some, [], ◌∷◌, codes, arith}
use bookcode_linux.Common.Int.{negsuc}
use bookcode_linux.Numbers.Strtol.{strtol, digits}
use bookcode_linux.Timer.{atoi, itimerspec_from_str}
use bookcode_linux.Timer.Laws.{spec_text, spec_value, itimerspec_from_str-text}

itimerspec_from_str-text_example :
    itimerspec_from_str (spec_text ((1, 2 ∷ []), some (5, [])) (some ((7, []), none)))
    ≡ spec_value ((1, 2 ∷ []), some (5, [])) (some ((7, []), none))
itimerspec_from_str-text_example =
    itimerspec_from_str-text ((1, 2 ∷ []), some (5, [])) (some ((7, []), none))
      (((omega arith, (omega arith, tt)), omega arith), ((omega arith, tt), omega arith))
      ((omega arith, tt), omega arith)

-- A long is cut to its low 32 bits.
wraps : atoi (codes "4294967295") ≡ negsuc 0
unfolding strtol digits atoi
wraps = refl
