-- ===== src/Timer/Laws.antt =====
-- Every form of the argument is read back as it was written.
use bookcode_linux.Common.{
  ℕ, ◌<◌, ◌^◌, ◌%◌, ◌≡◌, refl, ap₂, Option, none, some, true, List, [], ◌∷◌, ◌++◌, Bytes,
  cut-append, cut-none, Lacks, Lacks-append, ltb, arith,
}
use bookcode_linux.Common.Int.{ℤ, pos}
use bookcode_linux.Numbers.Laws.{
  AllDigits, numeral, decimal, strtol-numeral, Num, text, value, numeral-Lacks,
}
use bookcode_linux.Timer.{to_int, atoi, parse_time, ItimerSpec, spec, itimerspec_from_str}

abbrev pub IsInt : Num → Type 0
IsInt (d, ds) = AllDigits (d ∷ ds) × (decimal 0 (d ∷ ds) < 2 ^ 31)

-- "sec" or "sec/nanosec"
abbrev pub Time : Type 0
Time = Num × Option Num

abbrev pub time_text : Time → Bytes
time_text (s, none) = text s
time_text (s, some n) = text s ++ b'/' ∷ text n

abbrev pub IsTime : Time → Type 0
IsTime (s, none) = IsInt s
IsTime (s, some n) = IsInt s × IsInt n

abbrev pub time_value : Time → ℤ × ℤ
time_value (s, none) = (pos (value s), pos 0)
time_value (s, some n) = (pos (value s), pos (value n))

pub to_int_small : (n : ℕ) → n < 2 ^ 31 → to_int (pos n) ≡ pos n
to_int_small n h =
    let same : n % 2 ^ 32 ≡ n = omega arith in
    let low : ltb n (2 ^ 31) ≡ true = ground arith in rw (same, low) refl

atoi-text : (n : Num) → IsInt n → atoi (text n) ≡ pos (value n)
unfolding atoi
atoi-text (d, ds) (h, k) =
    rw (strtol-numeral d ds h (omega arith)) (to_int_small (decimal 0 (d ∷ ds)) k)

numeral-Lacks_colon : (ds : List ℕ) → AllDigits ds → Lacks b':' (numeral ds)
numeral-Lacks_colon [] h = tt
numeral-Lacks_colon (d ∷ ds) (h, hs) = (ground arith, numeral-Lacks_colon ds hs)

parse_time_text : (t : Time) → IsTime t → parse_time (time_text t) ≡ time_value t
parse_time_text (s, none) h =
    rw (cut-none b'/' (text s) (numeral-Lacks b'/' (s.0 ∷ s.1) (omega arith) h.0), atoi-text s h)
      refl
parse_time_text (s, some n) (h, k) =
    rw
      (
        cut-append b'/' (text s) (text n) (numeral-Lacks b'/' (s.0 ∷ s.1) (omega arith) h.0),
        atoi-text s h,
        atoi-text n k,
      )
      refl

time_text-Lacks : (t : Time) → IsTime t → Lacks b':' (time_text t)
time_text-Lacks (s, none) h = numeral-Lacks_colon (s.0 ∷ s.1) h.0
time_text-Lacks (s, some n) (h, k) =
    Lacks-append b':' (text s) (b'/' ∷ text n) (numeral-Lacks_colon (s.0 ∷ s.1) h.0)
      (refl, numeral-Lacks_colon (n.0 ∷ n.1) k.0)

-- The whole argument: a time, and perhaps an interval behind a colon.
abbrev pub spec_text : Time → Option Time → Bytes
spec_text t none = time_text t
spec_text t (some i) = time_text t ++ b':' ∷ time_text i

abbrev pub IsInterval : Option Time → Type 0
IsInterval none = Unit
IsInterval (some i) = IsTime i

abbrev pub interval_value : Option Time → ℤ × ℤ
interval_value none = (pos 0, pos 0)
interval_value (some i) = time_value i

abbrev pub spec_value : Time → Option Time → ItimerSpec
spec_value t i = record {
  value_sec = (time_value t).0;
  value_nsec = (time_value t).1;
  interval_sec = (interval_value i).0;
  interval_nsec = (interval_value i).1;
}

-- `itimerspecFromStr` reads back every "sec[/nanosec][:sec[/nanosec]]" of decimal numerals below
-- 2^31: each number gives its field, and the fields of the parts left out are 0.
pub itimerspec_from_str-text :
    (t : Time) (i : Option Time)
    → IsTime t
    → IsInterval i
    → itimerspec_from_str (spec_text t i) ≡ spec_value t i
unfolding itimerspec_from_str
itimerspec_from_str-text t none h k =
    rw (cut-none b':' (time_text t) (time_text-Lacks t h)) (ap₂ spec (parse_time_text t h) refl)
itimerspec_from_str-text t (some i) h k =
    rw (cut-append b':' (time_text t) (time_text i) (time_text-Lacks t h))
      (ap₂ spec (parse_time_text t h) (parse_time_text i k))
