-- ===== src/Semop.antt =====
-- The program TLPI/svsem/svsem_op.c, which reads semaphore operations from its arguments and
-- performs them.
pub mod Laws
pub mod Text
mod Tests
use bookcode_linux.Common.{
  ℕ, zero, suc, ◌+◌, ◌-◌, ◌%◌, ◌^◌, Option, none, some, Bool, true, false, ◌&&◌, ◌||◌, not, List,
  [], ◌∷◌, ◌++◌, Bytes, length, cut, ltb, leb, ◌==◌, if◌then◌else◌, Next, again, stop, loop,
}
use bookcode_linux.Common.Int.{ℤ, pos, negsuc, eq_ℤ}
use bookcode_linux.Numbers.Strtol.{Parsed, strtol}

abbrev pub max_semops : ℕ
max_semops = 1000

-- `struct sembuf`; of `sem_flg` the bits IPC_NOWAIT and SEM_UNDO.
pub record Sembuf : Type 0 where
  pub sem_num : ℕ
  pub sem_op : ℤ
  pub nowait : Bool
  pub undo : Bool

-- The low 16 bits of a value, as the fields of `struct sembuf` hold them.
abbrev pub low_bits : ℤ → ℕ
low_bits (pos n) = n % 2 ^ 16
low_bits (negsuc n) = 2 ^ 16 - 1 - n % 2 ^ 16

abbrev pub to_short : ℤ → ℤ
to_short v = let n = low_bits v in if ltb n (2 ^ 15) then pos n else negsuc (2 ^ 16 - 1 - n)

abbrev pub negate : ℤ → ℤ
negate (pos zero) = pos 0
negate (pos (suc n)) = negsuc n
negate (negsuc n) = pos (suc n)

abbrev pub is_digit : ℕ → Bool
is_digit c = leb b'0' c && leb c b'9'

abbrev pub begins_digit : Bytes → Bool
begins_digit [] = false
begins_digit (c ∷ s) = is_digit c

-- The loop over the flags, from the bits set so far: what stands behind them as well.
unfoldable pub parse_flags : Bool → Bool → Bytes → (Bool × Bool) × Bytes
parse_flags nowait undo [] = ((nowait, undo), [])
parse_flags nowait undo (c ∷ flags) =
    let rest_n = parse_flags true undo flags in
    let rest_u = parse_flags nowait true flags in
    if c == b'n' then rest_n else if c == b'u' then rest_u else ((nowait, undo), c ∷ flags)

-- The operation for a sign and the value behind it.
abbrev pub signed_op : ℕ → ℤ → Option ℤ
signed_op sign op =
    if sign == b'-'
    then some (to_short (negate op))
    else if sign == b'=' && not (eq_ℤ op (pos 0))
    then none
    else some op

-- A comma or the end follows the flags.
abbrev pub ends_op : Bytes → Bool
ends_op [] = true
ends_op (c ∷ s) = c == b','

abbrev pub with_flags : ℤ → ℤ → (Bool × Bool) × Bytes → Option Sembuf
with_flags num op ((nowait, undo), rest) =
    if ends_op rest
    then some (record { sem_num = low_bits num; sem_op = op; nowait = nowait; undo = undo })
    else none

abbrev pub with_op : ℤ → Bytes → Option ℤ → Option Sembuf
with_op num flags none = none
with_op num flags (some op) = with_flags num op (parse_flags false false flags)

abbrev pub after_sign : ℤ → ℕ → Bytes → Option Sembuf
after_sign num sign s =
    if begins_digit s
    then with_op num (strtol 10 s).rest (signed_op sign (to_short (strtol 10 s).value))
    else none

abbrev pub is_sign : ℕ → Bool
is_sign c = c == b'+' || c == b'-' || c == b'='

abbrev pub after_num : ℤ → Bytes → Option Sembuf
after_num num [] = none
after_num num (sign ∷ s) = if is_sign sign then after_sign num sign s else none

-- One operation at the start of a string; a failure ends the program.
unfoldable pub parse_op : Bytes → Option Sembuf
unfolding parse_flags
parse_op remaining =
    if begins_digit remaining
    then after_num (strtol 10 remaining).value (strtol 10 remaining).rest
    else none

-- Behind an operation, with what stands behind the next comma.
abbrev pub next_op :
    List Sembuf → Option Sembuf → Option Bytes → Next (Bytes × List Sembuf) (Option (List Sembuf))
next_op sops none comma = stop none
next_op sops (some op) none = stop (some (sops ++ op ∷ []))
next_op sops (some op) (some remaining) = again (remaining, sops ++ op ∷ [])

unfoldable pub parse_round : Bytes × List Sembuf → Next (Bytes × List Sembuf) (Option (List Sembuf))
unfolding parse_op
parse_round (remaining, sops) =
    if leb max_semops (length sops)
    then stop none
    else next_op sops (parse_op remaining) (cut b',' remaining).1

-- Each round adds an operation, and they are counted.
unfoldable pub parse_ops : Bytes → Option (Option (List Sembuf))
unfolding parse_round loop
parse_ops arg = loop (max_semops + 1) parse_round (arg, [])

-- The loop of `main` over the arguments; `semop` performs the operations of one of them, or fails.
module _ {S : Type 0} (semop : List Sembuf → S → Option S) where
  abbrev pub perform : (S → Bool × S) → S → Option (List Sembuf) → Bool × S
  perform next s none = (false, s)
  perform next s (some sops) = elim (semop sops s) [ none ↦ (false, s) | some s' ↦ next s' ]

  -- Whether the program succeeds, and the semaphores that it leaves.
  unfoldable pub main : List Bytes → S → Bool × S
  unfolding parse_ops
  main [] s = (true, s)
  main (arg ∷ args) s = elim (parse_ops arg) [
    | none ↦ (false, s)
    | some sops ↦ perform (main args) s sops
  ]
