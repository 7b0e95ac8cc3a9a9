-- ===== src/Semop/Tests.antt =====
-- Runs of svsem_op.c.
use bookcode_linux.Common.{◌≡◌, refl, some, none, true, false, [], ◌∷◌, codes, arith}
use bookcode_linux.Common.Int.{pos, negsuc}
use bookcode_linux.Numbers.Strtol.{strtol, digits}
use bookcode_linux.Semop.{parse_ops}
use bookcode_linux.Semop.Text.{Op, plus, minus}
use bookcode_linux.Semop.Laws.{ops_text, op_values, parse_ops-text}

two_ops :
    parse_ops (codes "0+1,1-2un")
    ≡ some (
        some (
          record { sem_num = 0; sem_op = pos 1; nowait = false; undo = false }
          ∷ record { sem_num = 1; sem_op = negsuc 1; nowait = true; undo = true }
          ∷ []))
unfolding parse_ops strtol digits
two_ops = refl

trailing_comma : parse_ops (codes "0+1,") ≡ some none
unfolding parse_ops strtol digits
trailing_comma = refl

-- A value is cut to 16 bits: 65536 is accepted behind an equals sign, and 65535 is -1.
cut_value :
    parse_ops (codes "0=65536,0+65535")
    ≡ some (
        some (
          record { sem_num = 0; sem_op = pos 0; nowait = false; undo = false }
          ∷ record { sem_num = 0; sem_op = negsuc 0; nowait = false; undo = false }
          ∷ []))
unfolding parse_ops strtol digits
cut_value = refl

abbrev first : Op
first = record { num = (0, []); sign = plus; val = (1, 2 ∷ []); flags = [] }

abbrev second : Op
second = record { num = (1, []); sign = minus; val = (2, []); flags = false ∷ true ∷ [] }

parse_ops-text_example :
    parse_ops (ops_text first (second ∷ [])) ≡ some (some (op_values (first ∷ second ∷ [])))
parse_ops-text_example = parse_ops-text first (second ∷ []) (omega arith) (
  (((omega arith, tt), omega arith), ((omega arith, (omega arith, tt)), omega arith), tt),
  ((((omega arith, tt), omega arith), ((omega arith, tt), omega arith), tt), tt),
)
