-- ===== src/Timer.antt =====
-- itimerspecFromStr() of TLPI/timers/itimerspec_from_str.c.
pub mod Laws
mod Tests
use bookcode_linux.Common.{
  ℕ, ◌+◌, ◌-◌, ◌%◌, ◌^◌, Option, none, some, true, false, List, [], ◌∷◌, Bytes, cut, ltb,
  if◌then◌else◌,
}
use bookcode_linux.Common.Int.{ℤ, pos, negsuc}
use bookcode_linux.Numbers.Strtol.{Parsed, strtol}

-- The signed value of 32 bits.
abbrev pub of_bits : ℕ → ℤ
of_bits n = if ltb n (2 ^ 31) then pos n else negsuc (2 ^ 32 - 1 - n)

-- The cast of a `long` to `int`.
abbrev pub to_int : ℤ → ℤ
to_int (pos n) = of_bits (n % 2 ^ 32)
to_int (negsuc n) = of_bits (2 ^ 32 - 1 - n % 2 ^ 32)

-- `atoi` is a strtol() of base ten, cast.
unfoldable pub atoi : Bytes → ℤ
atoi s = to_int (strtol 10 s).value

-- `struct itimerspec`
pub record ItimerSpec : Type 0 where
  pub value_sec : ℤ
  pub value_nsec : ℤ
  pub interval_sec : ℤ
  pub interval_nsec : ℤ

abbrev pub nanosec : Option Bytes → ℤ
nanosec none = pos 0
nanosec (some s) = atoi s

-- One "sec[/nanosec]".
abbrev pub parse_time : Bytes → ℤ × ℤ
parse_time s = (atoi (cut b'/' s).0, nanosec (cut b'/' s).1)

abbrev pub parse_interval : Option Bytes → ℤ × ℤ
parse_interval none = (pos 0, pos 0)
parse_interval (some s) = parse_time s

abbrev pub spec : ℤ × ℤ → ℤ × ℤ → ItimerSpec
spec v i = record { value_sec = v.0; value_nsec = v.1; interval_sec = i.0; interval_nsec = i.1 }

pub itimerspec_from_str : Bytes → ItimerSpec
itimerspec_from_str str = spec (parse_time (cut b':' str).0) (parse_interval (cut b':' str).1)
