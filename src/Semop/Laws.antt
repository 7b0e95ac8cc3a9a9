-- ===== src/Semop/Laws.antt =====
-- Arguments of svsem_op.c are read as they are written.
use bookcode_linux.Common.{
  ℕ, zero, suc, ◌+◌, ◌<◌, ◌≡◌, refl, ap, ap₂, sym, ◌∙◌, Option, none, some, Bool, true, false, List,
  [], ◌∷◌, ◌++◌, Bytes, length, cut, cut-append, cut-none, Lacks, Lacks-append, All, leb, ◌==◌,
  arith, append_assoc, append-nil, loop, again, stop, length-append, if◌then◌else◌,
}
use bookcode_linux.Numbers.Laws.{text, numeral-Lacks}
use bookcode_linux.Semop.{Sembuf, parse_op, next_op, parse_round, parse_ops, max_semops}
use bookcode_linux.Semop.Text.{
  Sign, plus, minus, equals, sign_char, letters, Op, op_text, op_value, IsOp, parse_op-text,
}

-- Operations with commas between them.
abbrev pub ops_text : Op → List Op → Bytes
ops_text o [] = op_text o
ops_text o (o' ∷ os) = op_text o ++ b',' ∷ ops_text o' os

abbrev pub op_values : List Op → List Sembuf
op_values [] = []
op_values (o ∷ os) = op_value o ∷ op_values os

letters-Lacks : (fl : List Bool) → Lacks b',' (letters fl)
letters-Lacks [] = tt
letters-Lacks (true ∷ fl) = (refl, letters-Lacks fl)
letters-Lacks (false ∷ fl) = (refl, letters-Lacks fl)

sign-Lacks : (s : Sign) → (sign_char s == b',') ≡ false
sign-Lacks plus = refl
sign-Lacks minus = refl
sign-Lacks equals = refl

op_text-Lacks : (o : Op) → IsOp o → Lacks b',' (op_text o)
op_text-Lacks o (h, k, z) =
    Lacks-append b',' (text o.num) (sign_char o.sign ∷ (text o.val ++ letters o.flags))
      (numeral-Lacks b',' (o.num.0 ∷ o.num.1) (omega arith) h.0)
      (
        sign-Lacks o.sign,
        Lacks-append b',' (text o.val) (letters o.flags)
            (numeral-Lacks b',' (o.val.0 ∷ o.val.1) (omega arith) k.0) (letters-Lacks o.flags),
      )

round_with :
    (remaining : Bytes) (sops : List Sembuf)
    → length sops < max_semops
    → (op : Option Sembuf) (comma : Option Bytes) → parse_op remaining ≡ op
    → (cut b',' remaining).1 ≡ comma
    → parse_round (remaining, sops) ≡ next_op sops op comma
unfolding parse_round
round_with remaining sops few op comma e f =
    let room : leb max_semops (length sops) ≡ false = ground arith in
    ap (λ t. if t then stop none else next_op sops (parse_op remaining) (cut b',' remaining).1) room
    ∙ ap₂ (next_op sops) e f

loop-ops :
    (fuel : ℕ) (sops : List Sembuf) (o : Op) (os : List Op)
    → length os < fuel
    → length sops + length os < max_semops
    → All IsOp (o ∷ os)
    → loop fuel parse_round (ops_text o os, sops) ≡ some (some (sops ++ op_values (o ∷ os)))
unfolding loop
loop-ops zero sops o os lt few h = absurd (omega arith)
loop-ops (suc fuel) sops o [] lt few (h, hs) =
    ap (λ n. elim n [ again s ↦ loop fuel parse_round s | stop r ↦ some r ])
      (round_with (op_text o) sops (omega arith) (some (op_value o)) none
        (ap parse_op (sym (append-nil (op_text o))) ∙ parse_op-text o [] h refl)
        (ap (λ c. c.1) (cut-none b',' (op_text o) (op_text-Lacks o h))))
loop-ops (suc fuel) sops o (o' ∷ os) lt few (h, hs) =
    ap (λ n. elim n [ again s ↦ loop fuel parse_round s | stop r ↦ some r ])
      (round_with (op_text o ++ b',' ∷ ops_text o' os) sops (omega arith) (some (op_value o))
        (some (ops_text o' os)) (parse_op-text o (b',' ∷ ops_text o' os) h refl)
        (ap (λ c. c.1) (cut-append b',' (op_text o) (ops_text o' os) (op_text-Lacks o h))))
    ∙ loop-ops fuel (sops ++ op_value o ∷ []) o' os (omega arith)
        (omega (arith, length-append sops (op_value o ∷ []))) hs
    ∙ ap (λ t. some (some t)) (append_assoc sops (op_value o ∷ []) (op_values (o' ∷ os)))

-- `parseOps` reads back every argument of at most MAX_SEMOPS operations with commas between them,
-- as "num+val", "num-val" or "num=0" with any letters "n" and "u" behind: decimal numerals
-- that fit the fields of `struct sembuf` give their values, the second negated behind a minus sign,
-- and each letter its flag.
pub parse_ops-text :
    (o : Op) (os : List Op)
    → length os < max_semops
    → All IsOp (o ∷ os)
    → parse_ops (ops_text o os) ≡ some (some (op_values (o ∷ os)))
unfolding parse_ops
parse_ops-text o os few h = loop-ops (max_semops + 1) [] o os (omega arith) (omega arith) h
