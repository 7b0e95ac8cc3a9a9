-- ===== src/ChangeCase/Tests.antt =====
-- A run of change_case.c.
use bookcode_linux.Common.{◌≡◌, refl, ◌⊎◌, [], ◌++◌, Bytes, codes, arith}
use bookcode_linux.ChangeCase.{
  State, upper, receiving, answering, Reach, begin, next, Step, ParentStep, ChildStep,
}
use bookcode_linux.ChangeCase.Laws.{Reach-Printed, Printed, Moves}

-- The child has the first two bytes.
abbrev converting : State
converting = record {
  stdin = codes "c1";
  outbound = [];
  inbound = [];
  stdout = [];
  parent = receiving;
  child = answering (codes "ab");
}

run : Reach (codes "abc1") converting
run =
    next
      (next
        (next begin (
          Step.of_parent
            (ParentStep.read_input (codes "ab") (codes "c1") refl (omega arith) (omega arith))))
        (Step.of_parent (ParentStep.send (codes "ab"))))
      (Step.of_child (ChildStep.read_block (omega arith)))

Reach-Printed_example :
    ((rest : Bytes) × (converting.stdout ++ rest ≡ upper (codes "abc1")))
    × (Printed (codes "abc1") converting ⊎ Moves converting)
Reach-Printed_example = Reach-Printed (codes "abc1") converting run
